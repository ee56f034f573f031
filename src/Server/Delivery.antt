-- ===== src/Server/Delivery.antt =====
-- What the UDP server hands to the next plugin.
use mathlib.Core.Path.{subst}
use mathlib.Core.Option
use recd.Common.{
  ℕ, zero, suc, ◌+◌, ◌*◌, ◌≡◌, ◌<◌, refl, sym, ◌∙◌, true, false, some, List, [], ◌∷◌, ◌++◌, ◌==◌,
  if◌then◌else◌, arith, Bool-cases, inl, inr, length, get_elem?, length-tabulate, if-true, if-false,
}
use recd.Frame.{Frame, IsFrame}
use recd.Server.{
  Server, SampleData, NextPlugin, Datagram, frame, other, u32, sub_u32, put_data, send_errs,
  on_desynch, on_synch, channel_entries, single_entry, on_datagram, on_datagrams, rounds,
  synch_entries, note_desynch, receive, note_missed,
}
use recd.Server.Counters.{core, core-put_data, core-send_errs}
use recd.Server.Entries.{
  IsReady, sample_at, err_list, err_entries_lem, channel_list, channel_entries_lem,
  channel_list_sample, channel_list_signal,
}

IsReady-receive : (s : Server) (udp : Frame) → IsReady s → IsReady (receive s udp)
unfolding receive
IsReady-receive s udp v = record {
  some_channel = v.some_channel;
  fits = v.fits;
  signals = v.signals;
  err_frame = v.err_frame;
}

pub IsReady-note_desynch : (s : Server) (udp : Frame) → IsReady s → IsReady (note_desynch s udp)
unfolding note_desynch
IsReady-note_desynch s udp v = record {
  some_channel = v.some_channel;
  fits = v.fits;
  signals = v.signals;
  err_frame = v.err_frame;
}

synch_entries_many :
    (fresh : List ℕ) (s : Server) (udp : Frame)
    → s.single_file ≡ false
    → synch_entries fresh s udp ≡ channel_entries s udp
unfolding synch_entries
synch_entries_many fresh s udp h = if-false _ _ h

-- A frame of 512 samples and 64 null bytes that is in sequence, at a server that makes one entry for each channel and has
-- between 1 and 64 channels, no more than 512 samples in all of them together, and an error frame of 512 samples: the call
-- succeeds, and the next plugin is given one list, of one entry for each channel, whose sample `j` of entry `i` is sample
-- `j * channels + i` of the frame; entry `i` carries the frame's null byte `i` as its signal. (`init` accepts up to 127
-- channels: with more than 64 the null bytes do not suffice.)
pub delivered-on_datagram :
    (next : List SampleData → List SampleData) (fresh : List ℕ) (s : Server) (udp : Frame) (i j : ℕ)
    → IsReady s
    → IsFrame udp
    → s.single_file ≡ false
    → udp.counter ≡ u32 (s.conn_info.paket_counter + 1)
    → i < s.channels
    → j < s.smpl_per_chan
    → (s' : Server) × (ls : List SampleData) × (on_datagram (some next) fresh s (frame udp)
        ≡ some s')
      × (s'.delivered ≡ s.delivered ++ (ls ∷ []))
      × (length ls ≡ s.channels)
      × (sample_at ls i j ≡ get_elem? udp.data_ (j * s.channels + i))
      × (Option.map (λ (e : SampleData). e.signal) (get_elem? ls i) ≡ get_elem? udp.null_bytes i)
unfolding on_datagram on_synch put_data receive
delivered-on_datagram next fresh s udp i j v f many seq hi hj = (
  (put_data (some next) (receive s udp) (channel_list s udp)).0,
  channel_list s udp,
  if-true _ _ test ∙ rw ls_proof,
  refl,
  length-tabulate s.channels 0 _,
  channel_list_sample s udp i j v f hi hj,
  channel_list_signal s udp i v f hi,
)
  where
    test : (udp.counter == u32 (s.conn_info.paket_counter + 1)) ≡ true
    test = ground arith

    ls_proof : synch_entries fresh (receive s udp) udp ≡ some (channel_list s udp)
    ls_proof =
        synch_entries_many fresh (receive s udp) udp many
        ∙ channel_entries_lem (receive s udp) udp (IsReady-receive s udp v) f

abbrev pub AllFrames : List Datagram → Type 0
AllFrames [] = Unit {0}
AllFrames (frame udp ∷ ds) = IsFrame udp × AllFrames ds
AllFrames (other ∷ ds) = AllFrames ds

pub IsReady-core : (s t : Server) → core s ≡ core t → IsReady t → IsReady s
IsReady-core s t e v = open_core (subst IsReady (sym e) close_core)
  where
    close_core : IsReady (core t)
    close_core = record {
      some_channel = v.some_channel;
      fits = v.fits;
      signals = v.signals;
      err_frame = v.err_frame;
    }

    open_core : IsReady (core s) → IsReady s
    open_core c = record {
      some_channel = c.some_channel;
      fits = c.fits;
      signals = c.signals;
      err_frame = c.err_frame;
    }

send_errs_total :
    (next : NextPlugin) (n : ℕ) (s : Server) (ls : List SampleData)
    → IsReady s
    → (s' : Server) × (send_errs next n s ls ≡ some s')
unfolding send_errs
send_errs_total next zero s ls v = (s, refl)
send_errs_total next (suc n) s ls v = rw (err_entries_lem s v) (
    send_errs_total next n (put_data next s (ls ++ err_list s)).0
      (put_data next s (ls ++ err_list s)).1
      (IsReady-core _ s (core-put_data next s (ls ++ err_list s)) v))

on_synch_total :
    (next : NextPlugin) (fresh : List ℕ) (s : Server) (udp : Frame)
    → IsReady s
    → IsFrame udp
    → (s' : Server) × (on_synch next fresh s udp ≡ some s') × IsReady s'
unfolding on_synch synch_entries
on_synch_total next fresh s udp v f = elim (Bool-cases s.single_file) [
  | inl one ↦ sent (single_entry fresh udp) (if-true _ _ one)
  | inr many ↦ sent (channel_list s udp) (if-false _ _ many ∙ channel_entries_lem s udp v f)
]
  where
    sent :
        (ls : List SampleData)
        → (if s.single_file then some (single_entry fresh udp) else channel_entries s udp) ≡ some ls
        → (s' : Server) × (on_synch next fresh s udp ≡ some s') × IsReady s'
    sent ls e = (
      (put_data next s ls).0,
      rw e,
      IsReady-core (put_data next s ls).0 s (core-put_data next s ls) v,
    )

pub on_desynch_total :
    (next : NextPlugin) (s : Server) (udp : Frame)
    → IsReady s
    → (s' : Server) × (on_desynch next s udp ≡ some s') × IsReady s'
unfolding on_desynch
on_desynch_total next s udp v =
    let w = IsReady-note_desynch s udp v in
    let t = note_desynch s udp in
    elim (Bool-cases s.conn_info.onetime_synch) [
      | inl again ↦
          let (s', e) =
            send_errs_total next (rounds (sub_u32 udp.counter s.conn_info.paket_counter)) t [] w in
          (s', if-true _ _ again ∙ e, IsReady-core s' t (core-send_errs next _ t [] s' e) w)
      | inr first ↦ (
        (put_data next t (err_list t)).0,
        if-false _ _ first ∙ rw (err_entries_lem t w),
        IsReady-core (put_data next t (err_list t)).0 t (core-put_data next t (err_list t)) w,
      )
    ]

on_datagram_total :
    (next : NextPlugin) (fresh : List ℕ) (s : Server) (d : Datagram)
    → IsReady s
    → AllFrames (d ∷ [])
    → (s' : Server) × (on_datagram next fresh s d ≡ some s') × IsReady s'
unfolding on_datagram note_missed
on_datagram_total next fresh s other v f = (
  note_missed s,
  refl,
  IsReady-core (note_missed s) (record s { messages = (note_missed s).messages }) refl
      (record {
        some_channel = v.some_channel;
        fits = v.fits;
        signals = v.signals;
        err_frame = v.err_frame;
      }),
)
on_datagram_total next fresh s (frame udp) v f =
    let w = IsReady-receive s udp v in
    elim (Bool-cases (udp.counter == (receive s udp).conn_info.paket_counter)) [
      | inl same ↦
          let (s', e, r) = on_synch_total next fresh (receive s udp) udp w f.0 in
          (s', if-true _ _ same ∙ e, r)
      | inr differ ↦
          let (s', e, r) = on_desynch_total next (receive s udp) udp w in
          (s', if-false _ _ differ ∙ e, r)
    ]

-- A ready server reads and writes inside the arrays of every frame: any sequence of frames and datagrams of
-- another size is processed to the end, whatever the next plugin does, and leaves the server ready.
pub on_datagrams_total :
    (next : NextPlugin) (fresh : List ℕ) (ds : List Datagram) (s : Server)
    → IsReady s
    → AllFrames ds
    → (s' : Server) × (on_datagrams next fresh s ds ≡ some s') × IsReady s'
unfolding on_datagrams
on_datagrams_total next fresh [] s v f = (s, refl, v)
on_datagrams_total next fresh (other ∷ ds) s v f =
    let (t, e, w) = on_datagram_total next fresh s other v tt in
    let (s', es, r) = on_datagrams_total next fresh ds t w f in (s', rw e es, r)
on_datagrams_total next fresh (frame udp ∷ ds) s v f =
    let (t, e, w) = on_datagram_total next fresh s (frame udp) v (f.0, tt) in
    let (s', es, r) = on_datagrams_total next fresh ds t w f.1 in (s', rw e es, r)
