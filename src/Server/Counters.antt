-- ===== src/Server/Counters.antt =====
-- The packet counters of the UDP server over any sequence of datagrams.
use recd.Common.{
  ℕ, zero, suc, ◌+◌, ◌≡◌, refl, sym, ap, ◌∙◌, none, some, List, [], ◌∷◌, ◌++◌, ◌==◌, if◌then◌else◌,
  arith, >>=-eq-some, some-eq, Bool-cases, inl, inr,
}
use recd.Frame.{Frame}
use recd.Server.{
  Server, SampleData, NextPlugin, Datagram, frame, other, u32, sub_u32, put_data, send_errs,
  on_desynch, on_synch, err_entries, on_datagram, on_datagrams, rounds, disconnected,
  check_connection, check_monitor, ready_read_udp, no_conn, synch_entries, note_desynch, receive,
  note_missed,
}

-- All of a server but what it has delivered.
abbrev pub core : Server → Server
core s = record s { delivered = [] }

pub core-put_data :
    (next : NextPlugin) (s : Server) (ls : List SampleData) → core (put_data next s ls).0 ≡ core s
unfolding put_data
core-put_data none s ls = refl
core-put_data (some f) s ls = refl

pub core-send_errs :
    (next : NextPlugin) (n : ℕ) (s : Server) (ls : List SampleData) (s' : Server)
    → send_errs next n s ls ≡ some s'
    → core s' ≡ core s
unfolding send_errs
core-send_errs next zero s ls s' e = ap core (sym (some-eq e))
core-send_errs next (suc n) s ls s' e =
    let (entries, _, sent) = >>=-eq-some (err_entries s) _ e in
    core-send_errs next n (put_data next s (ls ++ entries)).0 (put_data next s (ls ++ entries)).1 s'
      sent
    ∙ core-put_data next s (ls ++ entries)

core-on_synch :
    (next : NextPlugin) (fresh : List ℕ) (s : Server) (udp : Frame) (s' : Server)
    → on_synch next fresh s udp ≡ some s'
    → core s' ≡ core s
unfolding on_synch
core-on_synch next fresh s udp s' e =
    let (ls, _, sent) = >>=-eq-some (synch_entries fresh s udp) _ e in
    ap core (sym (some-eq sent)) ∙ core-put_data next s ls

core-on_desynch :
    (next : NextPlugin) (s : Server) (udp : Frame) (s' : Server)
    → on_desynch next s udp ≡ some s'
    → core s' ≡ core (note_desynch s udp)
unfolding on_desynch note_desynch
core-on_desynch next s udp s' e = elim (Bool-cases s.conn_info.onetime_synch) [
  | inl again ↦
      core-send_errs next (rounds (sub_u32 udp.counter s.conn_info.paket_counter))
        (note_desynch s udp) [] s' (rw again at e)
  | inr first ↦
      let (entries, _, sent) = >>=-eq-some (err_entries (note_desynch s udp)) _ (rw first at e) in
      ap core (sym (some-eq sent)) ∙ core-put_data next (note_desynch s udp) entries
]

-- What a frame makes of a server, apart from what it delivers.
abbrev pub step : Server → Frame → Server
step s udp =
    let s' = receive s udp in
    if udp.counter == s'.conn_info.paket_counter then s' else note_desynch s' udp

pub core-on_datagram :
    (next : NextPlugin) (fresh : List ℕ) (s : Server) (udp : Frame) (s' : Server)
    → on_datagram next fresh s (frame udp) ≡ some s'
    → core s' ≡ core (step s udp)
unfolding on_datagram
core-on_datagram next fresh s udp s' e =
    elim (Bool-cases (udp.counter == (receive s udp).conn_info.paket_counter)) [
      | inl same ↦ rw same (core-on_synch next fresh (receive s udp) udp s' (rw same at e))
      | inr differ ↦ rw differ (core-on_desynch next (receive s udp) udp s' (rw differ at e))
    ]

-- The datagrams that are frames.
unfoldable pub frames : List Datagram → ℕ
frames [] = 0
frames (frame udp ∷ ds) = 1 + frames ds
frames (other ∷ ds) = frames ds

-- The frames whose counter is not one more, modulo 2 ^ 32, than that of the frame before; `last` is the
-- counter before the first.
unfoldable pub gaps : ℕ → List Datagram → ℕ
gaps last [] = 0
gaps last (frame udp ∷ ds) = (if udp.counter == u32 (last + 1) then 0 else 1) + gaps udp.counter ds
gaps last (other ∷ ds) = gaps last ds

step_counters :
    (s : Server) (udp : Frame)
    → let c = (step s udp).conn_info in
      (c.paket_counter ≡ udp.counter)
      × (u32 (c.paket_counter + s.conn_info.total_lost)
          ≡ u32 (s.conn_info.paket_counter + 1 + c.total_lost))
      × (u32 c.desynch_counter
          ≡ u32 (
              s.conn_info.desynch_counter
              + (if udp.counter == u32 (s.conn_info.paket_counter + 1) then 0 else 1)))
unfolding receive note_desynch
step_counters s udp = ground arith

same_counters :
    (s t : Server)
    → core s ≡ core t
    → (s.conn_info.paket_counter ≡ t.conn_info.paket_counter)
      × (s.conn_info.total_lost ≡ t.conn_info.total_lost)
      × (s.conn_info.desynch_counter ≡ t.conn_info.desynch_counter)
same_counters s t e = (
  ap (λ (s : Server). s.conn_info.paket_counter) e,
  ap (λ (s : Server). s.conn_info.total_lost) e,
  ap (λ (s : Server). s.conn_info.desynch_counter) e,
)

pub on_datagram-other :
    (next : NextPlugin) (fresh : List ℕ) (s : Server)
    → on_datagram next fresh s other ≡ some (note_missed s)
unfolding on_datagram
on_datagram-other next fresh s = refl

-- Over any sequence of datagrams that is processed to the end, modulo 2 ^ 32: the server's packet counter
-- moves by the number of frames received plus the number counted as lost, and its desynch counter by
-- the number of frames out of sequence.
pub counters-on_datagrams :
    (next : NextPlugin) (fresh : List ℕ) (ds : List Datagram) (s s' : Server)
    → on_datagrams next fresh s ds ≡ some s'
    → (u32 (s'.conn_info.paket_counter + s.conn_info.total_lost)
        ≡ u32 (s.conn_info.paket_counter + frames ds + s'.conn_info.total_lost))
      × (u32 s'.conn_info.desynch_counter
          ≡ u32 (s.conn_info.desynch_counter + gaps s.conn_info.paket_counter ds))
unfolding on_datagrams frames gaps note_missed
counters-on_datagrams next fresh [] s s' e = omega (arith, same_counters s s' (ap core (some-eq e)))
counters-on_datagrams next fresh (other ∷ ds) s s' e = omega (
  arith,
  counters-on_datagrams next fresh ds (note_missed s) s' (rw (on_datagram-other next fresh s) at e),
)
counters-on_datagrams next fresh (frame udp ∷ ds) s s' e =
    let (t, one, rest) = >>=-eq-some (on_datagram next fresh s (frame udp)) _ e in
    let here = same_counters t (step s udp) (core-on_datagram next fresh s udp t one) in
    let c = step_counters s udp in
    let later = rw (here.0 ∙ c.0) at (counters-on_datagrams next fresh ds t s' rest).1 in
    (
      omega (arith, here, c, (counters-on_datagrams next fresh ds t s' rest).0),
      omega (arith, here, c, later),
    )

monitor-on_datagrams :
    (next : NextPlugin) (fresh : List ℕ) (ds : List Datagram) (s s' : Server)
    → on_datagrams next fresh s ds ≡ some s'
    → s'.monitor_data ≡ s.monitor_data
unfolding on_datagrams receive note_desynch note_missed
monitor-on_datagrams next fresh [] s s' e = ap (λ (t : Server). t.monitor_data) (sym (some-eq e))
monitor-on_datagrams next fresh (other ∷ ds) s s' e =
    monitor-on_datagrams next fresh ds (note_missed s) s' (rw (on_datagram-other next fresh s) at e)
monitor-on_datagrams next fresh (frame udp ∷ ds) s s' e =
    let (t, one, rest) = >>=-eq-some (on_datagram next fresh s (frame udp)) _ e in
    monitor-on_datagrams next fresh ds t s' rest
    ∙ ap (λ (t : Server). t.monitor_data) (core-on_datagram next fresh s udp t one)
    ∙ ground arith

check_alive :
    (s : Server) (m : List ℕ)
    → s.monitor_data ≡ m ++ (46 ∷ [])
    → check_connection s ≡ record s { monitor_data = [] }
unfolding check_connection check_monitor
check_alive s [] e = ap (check_monitor s) e
check_alive s (c ∷ m) e = ap (check_monitor s) e

-- The check that follows a call of `readyReadUdp` with datagrams pending keeps the counters, and one more
-- check with no such call in between sets them to 0.
pub check_connection-ready_read_udp :
    (next : NextPlugin) (fresh : List ℕ) (d : Datagram) (ds : List Datagram) (s s' : Server)
    → ready_read_udp next fresh s (d ∷ ds) ≡ some s'
    → ((check_connection s').conn_info ≡ s'.conn_info)
      × ((check_connection (check_connection s')).conn_info ≡ no_conn)
unfolding ready_read_udp check_connection check_monitor disconnected
check_connection-ready_read_udp next fresh d ds s s' e =
    let kept = monitor-on_datagrams next fresh (d ∷ ds) _ s' e in
    let alive = check_alive s' s.monitor_data kept in
    (ap (λ (t : Server). t.conn_info) alive, rw alive)
