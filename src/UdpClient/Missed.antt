-- ===== src/UdpClient/Missed.antt =====
-- What becomes of the client's frames (udp-client/client.cpp) in the server (udp-streamer/server.cpp).
use recd.Common.{
  ℕ, zero, suc, ◌+◌, ◌*◌, ◌%◌, ◌≡◌, refl, sym, ap, ◌∙◌, some, List, [], ◌∷◌, ◌++◌, map, append-nil,
  append_assoc, arith, get_or, get_elem?-eq-get_or, set, length, length-set, length-append,
  length-replicate, replicate, ◌==◌, ◌>>=◌, if-false,
}
use recd.Frame.{data_bytes}
use recd.Server.{NextPlugin, Server, missed_udp, other, u32, on_datagrams, note_missed}
use recd.Server.Counters.{on_datagram-other}
use recd.TcpServer.{frame_size}
use recd.TcpServer.InOrder.{length-data_bytes}
use recd.UdpClient.{
  Client, fill_chan, fill_data, packet_bytes, transmit, transmit_times, datagram_of,
}

pub record IsClient (c : Client) : Type 0 where
  pub samples : length c.data_ ≡ 512
  pub pads : length c.padding ≡ 3

fill_chan_total :
    (file : List ℕ) (i n j : ℕ) (samples : List ℕ) (cnt : ℕ)
    → length file ≡ 100000
    → (samples' : List ℕ) × (cnt' : ℕ) × (fill_chan file i n j (samples, cnt)
        ≡ some (samples', cnt'))
      × (length samples' ≡ length samples)
unfolding fill_chan
fill_chan_total file i zero j samples cnt h = (samples, cnt, refl, refl)
fill_chan_total file i (suc n) j samples cnt h =
    let s = get_or file (cnt % 100000) 0 in
    let (samples', cnt', e, l) =
      fill_chan_total file i n (j + 1) (set samples (i * 16 + j) s) (u32 (cnt + 1)) h in
    (
      samples',
      cnt',
      rw (get_elem?-eq-get_or file (cnt % 100000) 0 (omega (arith, h))) e,
      l ∙ length-set samples (i * 16 + j) s,
    )

fill_data_total :
    (file : List ℕ) (n i : ℕ) (samples : List ℕ) (cnt : ℕ)
    → length file ≡ 100000
    → (samples' : List ℕ) × (cnt' : ℕ) × (fill_data file n i (samples, cnt) ≡ some (samples', cnt'))
      × (length samples' ≡ length samples)
unfolding fill_data
fill_data_total file zero i samples cnt h = (samples, cnt, refl, refl)
fill_data_total file (suc n) i samples cnt h =
    let (samples', cnt', e, l) = fill_chan_total file i 16 0 samples cnt h in
    let (samples'', cnt'', e', l') = fill_data_total file n (i + 1) samples' cnt' h in
    (samples'', cnt'', rw e e', l' ∙ l)

length-packet_bytes :
    (c : Client) → IsClient c → length c.null_bytes ≡ 64 → length (packet_bytes c) ≡ 1096
unfolding packet_bytes
length-packet_bytes c v h = omega (
  arith,
  length-append c.null_bytes (data_bytes c.data_ ++ (c.checksum ∷ c.padding)),
  length-append (data_bytes c.data_) (c.checksum ∷ c.padding),
  length-data_bytes c.data_,
  h,
  v.samples,
  v.pads,
)

-- A packet does not have the size of the server's frame.
datagram_of-packet_bytes :
    (c : Client) → IsClient c → length c.null_bytes ≡ 64 → datagram_of (packet_bytes c) ≡ other
unfolding datagram_of
datagram_of-packet_bytes c v h =
    if-false {b = length (packet_bytes c) == frame_size} _ _
      (ground (arith, length-packet_bytes c v h))

abbrev next_client : Client → List ℕ → ℕ → Client
next_client c samples cnt = record c {
  counter = u32 (c.counter + 1);
  file_cnt = cnt;
  data_ = samples;
  null_bytes = replicate 64 0;
}

transmit_total :
    (file : List ℕ) (c : Client)
    → length file ≡ 100000
    → IsClient c
    → (c' : Client) × (bytes : List ℕ) × (transmit file c ≡ some (c', bytes))
      × IsClient c'
      × (datagram_of bytes ≡ other)
unfolding transmit
transmit_total file c h v =
    let (samples, cnt, e, l) = fill_data_total file 32 0 c.data_ c.file_cnt h in
    let w : IsClient (next_client c samples cnt) = record {
      samples = l ∙ v.samples;
      pads = v.pads;
    } in
    (
      next_client c samples cnt,
      packet_bytes (next_client c samples cnt),
      ap
          (λ o. o >>= λ (q : List ℕ × ℕ).
            some (next_client c q.0 q.1, packet_bytes (next_client c q.0 q.1)))
          e,
      w,
      datagram_of-packet_bytes (next_client c samples cnt) w (length-replicate {A = ℕ} 64 0),
    )

-- The server behind `n` datagrams of another size.
unfoldable pub missed_times : ℕ → Server → Server
missed_times zero s = s
missed_times (suc n) s = missed_times n (note_missed s)

missed_times_lem :
    (n : ℕ) (s : Server)
    → ((missed_times n s).delivered ≡ s.delivered)
      × ((missed_times n s).conn_info ≡ s.conn_info)
      × ((missed_times n s).messages ≡ s.messages ++ replicate n missed_udp)
unfolding missed_times note_missed
missed_times_lem zero s = (refl, refl, sym (append-nil s.messages))
missed_times_lem (suc n) s =
    let later = missed_times_lem n (note_missed s) in
    (later.0, later.1, later.2 ∙ append_assoc s.messages (missed_udp ∷ []) (replicate n missed_udp))

sent_missed :
    (file : List ℕ) (n : ℕ) (c : Client)
    → length file ≡ 100000
    → IsClient c
    → (sent : List (List ℕ)) × (transmit_times file n c ≡ some sent)
      × (length sent ≡ n)
      × (map datagram_of sent ≡ replicate n other)
unfolding transmit_times
sent_missed file zero c h v = ([], refl, refl, refl)
sent_missed file (suc n) c h v =
    let (c', bytes, e, v', o) = transmit_total file c h v in
    let (rest, es, len, os) = sent_missed file n c' h v' in
    (bytes ∷ rest, rw (e, es) refl, ap suc len, rw (o, os) refl)

on_datagrams-others :
    (next : NextPlugin) (fresh : List ℕ) (n : ℕ) (s : Server)
    → on_datagrams next fresh s (replicate n other) ≡ some (missed_times n s)
unfolding on_datagrams missed_times
on_datagrams-others next fresh zero s = refl
on_datagrams-others next fresh (suc n) s =
    ap (λ o. o >>= λ t. on_datagrams next fresh t (replicate n other))
      (on_datagram-other next fresh s)
    ∙ on_datagrams-others next fresh n (note_missed s)

-- The client of this repository and its server do not fit: however often the client sends, every datagram is sent, and the
-- server counts each one as missed. Nothing is delivered, and the counters stay.
pub client_missed :
    (file : List ℕ) (n : ℕ) (c : Client) (next : NextPlugin) (fresh : List ℕ) (s : Server)
    → length file ≡ 100000
    → IsClient c
    → (sent : List (List ℕ)) × (s' : Server) × (transmit_times file n c ≡ some sent)
      × (length sent ≡ n)
      × (on_datagrams next fresh s (map datagram_of sent) ≡ some s')
      × (s'.delivered ≡ s.delivered)
      × (s'.conn_info ≡ s.conn_info)
      × (s'.messages ≡ s.messages ++ replicate n missed_udp)
client_missed file n c next fresh s h v =
    let (sent, e, len, os) = sent_missed file n c h v in
    let same = missed_times_lem n s in
    (
      sent,
      missed_times n s,
      e,
      len,
      ap (on_datagrams next fresh s) os ∙ on_datagrams-others next fresh n s,
      same.0,
      same.1,
      same.2,
    )
