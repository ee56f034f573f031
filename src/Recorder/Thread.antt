-- ===== src/Recorder/Thread.antt =====
-- The recorder's thread in recorder/recorder.cpp and the calls of `put_data`, in any order.
use recd.Common.{
  ℕ, zero, suc, ◌+◌, ◌≡◌, refl, sym, ap, ◌∙◌, Bool, Option, none, some, List, [], ◌∷◌, ◌++◌, ◌==◌,
  if◌then◌else◌, ltb, get_elem?, ◌>>=◌, >>=-eq-some, some-eq, Bool-cases, inl, inr, if-true,
  if-false, append_assoc, append-nil, Option-cases, arith,
}
use recd.Server.{SampleData}
use recd.Wav.{Wav, WavHdr, create, close, write, get_file_size}
use recd.Recorder.{
  Recorder, next_name, swap_file, reopen_wav_file, poll_file, for_slots, poll_hot_swap,
  record_entry, record_entries, record_list, record_lists, run_round, put_data,
}
use recd.Recorder.Channels.{record_lists-append}

-- What happens: a call of `put_data`, or a round of the thread.
pub data Turn : Type 0 where
  puts : List SampleData → Turn
  wakes : Turn

module _ (fopen_ok : List ℕ → Bool) (time : ℕ → List ℕ) (garbage : WavHdr) where
  unfoldable pub happens : Turn → Recorder → Option Recorder
  happens (puts sd) r = some (put_data r sd).0
  happens wakes r = run_round fopen_ok time garbage r

  unfoldable pub all_happen : List Turn → Recorder → Option Recorder
  all_happen [] r = some r
  all_happen (e ∷ es) r = happens e r >>= λ r'. all_happen es r'

  buffer-swap_file :
      (r : Recorder) (slot : ℕ) (w : Wav) (r' : Recorder)
      → swap_file fopen_ok time garbage r slot w ≡ some r'
      → r'.buffer ≡ r.buffer
  unfolding swap_file
  buffer-swap_file r slot w r' e =
      let (old, _, e1) = >>=-eq-some (close w) _ e in
      let (fresh, _, e2) =
        >>=-eq-some (create garbage (next_name fopen_ok time garbage r slot)) _ e1 in
      ap (λ (t : Recorder). t.buffer) (sym (some-eq e2))

  buffer-reopen_at :
      (r : Recorder) (slot : ℕ) (p : Option Wav) (r' : Recorder)
      → get_elem? r.wavs slot ≡ some p
      → reopen_wav_file fopen_ok time garbage r slot ≡ some r'
      → r'.buffer ≡ r.buffer
  unfolding reopen_wav_file
  buffer-reopen_at r slot none r' g e = ap (λ (t : Recorder). t.buffer) (sym (some-eq (rw g at e)))
  buffer-reopen_at r slot (some w) r' g e = elim (Bool-cases w.is_opened) [
    | inl o ↦ ap (λ (t : Recorder). t.buffer) (sym (some-eq (sym (if-true _ _ o) ∙ rw g at e)))
    | inr o ↦ buffer-swap_file r slot w r' (sym (if-false _ _ o) ∙ rw g at e)
  ]

  buffer-poll_at :
      (r : Recorder) (slot : ℕ) (p : Option Wav) (r' : Recorder)
      → get_elem? r.wavs slot ≡ some p
      → poll_file fopen_ok time garbage r slot ≡ some r'
      → r'.buffer ≡ r.buffer
  unfolding poll_file
  buffer-poll_at r slot none r' g e = ap (λ (t : Recorder). t.buffer) (sym (some-eq (rw g at e)))
  buffer-poll_at r slot (some w) r' g e = elim (Bool-cases w.is_opened) [
    | inl o ↦
        let (size, _, e1) = >>=-eq-some (get_file_size w) _ (sym (if-true _ _ o) ∙ rw g at e) in
        elim (Bool-cases (ltb r.max_file_size size)) [
          | inl big ↦ buffer-swap_file r slot w r' (sym (if-true _ _ big) ∙ e1)
          | inr fits ↦
              ap (λ (t : Recorder). t.buffer) (sym (some-eq (sym (if-false _ _ fits) ∙ e1)))
        ]
    | inr o ↦ ap (λ (t : Recorder). t.buffer) (sym (some-eq (sym (if-false _ _ o) ∙ rw g at e)))
  ]

  buffer-for_slots :
      (n i : ℕ) (r r' : Recorder)
      → for_slots fopen_ok time garbage (poll_file fopen_ok time garbage) n i r ≡ some r'
      → r'.buffer ≡ r.buffer
  unfolding for_slots poll_file
  buffer-for_slots zero i r r' e = ap (λ (t : Recorder). t.buffer) (sym (some-eq e))
  buffer-for_slots (suc n) i r r' e =
      let (r1, e1, e2) = >>=-eq-some (poll_file fopen_ok time garbage r i) _ e in
      let (p, g, _) = >>=-eq-some (get_elem? r.wavs i) _ e1 in
      buffer-for_slots n (i + 1) r1 r' e2 ∙ buffer-poll_at r i p r1 g e1

  buffer-entry_at :
      (r : Recorder) (i : ℕ) (s : SampleData) (p : Option Wav) (r' : Recorder)
      → get_elem? r.wavs i ≡ some p
      → record_entry fopen_ok time garbage r i s ≡ some r'
      → r'.buffer ≡ r.buffer
  unfolding record_entry
  buffer-entry_at r i s none r' g e = elim (Bool-cases (s.signal == 0)) [
    | inl quiet ↦ ap (λ (t : Recorder). t.buffer) (sym (some-eq (rw (g, quiet) at e)))
    | inr loud ↦ absurd (ground (arith, rw (g, loud) at e))
  ]
  buffer-entry_at r i s (some w) r' g e = elim (Bool-cases (s.signal == 0)) [
    | inl quiet ↦
        let (w', _, e1) = >>=-eq-some (close w) _ (rw (g, quiet) at e) in
        ap (λ (t : Recorder). t.buffer) (sym (some-eq e1))
    | inr loud ↦ elim (Bool-cases w.is_opened) [
      | inl o ↦
          let (w', _, e1) =
            >>=-eq-some (write w s.samples s.size) _ (sym (if-true _ _ o) ∙ rw (g, loud) at e) in
          ap (λ (t : Recorder). t.buffer) (sym (some-eq e1))
      | inr o ↦ buffer-reopen_at r i (some w) r' g (sym (if-false _ _ o) ∙ rw (g, loud) at e)
    ]
  ]

  buffer-record_entries :
      (sd : List SampleData) (r : Recorder) (i : ℕ) (r' : Recorder)
      → record_entries fopen_ok time garbage r i sd ≡ some r'
      → r'.buffer ≡ r.buffer
  unfolding record_entries record_entry
  buffer-record_entries [] r i r' e = ap (λ (t : Recorder). t.buffer) (sym (some-eq e))
  buffer-record_entries (s ∷ sd) r i r' e =
      let (r1, e1, e2) = >>=-eq-some (record_entry fopen_ok time garbage r i s) _ e in
      let (p, g, _) = >>=-eq-some (get_elem? r.wavs i) _ e1 in
      buffer-record_entries sd r1 (i + 1) r' e2 ∙ buffer-entry_at r i s p r1 g e1

  buffer-record_list :
      (sd : List SampleData) (r r' : Recorder)
      → record_list fopen_ok time garbage r sd ≡ some r'
      → r'.buffer ≡ r.buffer
  unfolding record_list poll_hot_swap
  buffer-record_list [] r r' e = ap (λ (t : Recorder). t.buffer) (sym (some-eq e))
  buffer-record_list (s ∷ sd) r r' e =
      let (r1, e1, e2) =
        >>=-eq-some (if r.size_based then poll_hot_swap fopen_ok time garbage r else some r) _ e in
      buffer-record_entries (s ∷ sd) r1 0 r' e2 ∙ elim (Bool-cases r.size_based) [
        | inl sb ↦ buffer-for_slots r.max_chans 0 r r1 (sym (if-true _ _ sb) ∙ e1)
        | inr sb ↦ ap (λ (t : Recorder). t.buffer) (sym (some-eq (sym (if-false _ _ sb) ∙ e1)))
      ]

  buffer-record_lists :
      (sds : List (List SampleData)) (r r' : Recorder)
      → record_lists fopen_ok time garbage r sds ≡ some r'
      → r'.buffer ≡ r.buffer
  unfolding record_lists
  buffer-record_lists [] r r' e = ap (λ (t : Recorder). t.buffer) (sym (some-eq e))
  buffer-record_lists (sd ∷ sds) r r' e =
      let (r1, e1, e2) = >>=-eq-some (record_list fopen_ok time garbage r sd) _ e in
      buffer-record_lists sds r1 r' e2 ∙ buffer-record_list sd r r1 e1

-- The lists that are put.
abbrev pub lists_of : List Turn → List (List SampleData)
lists_of [] = []
lists_of (puts sd ∷ es) = sd ∷ lists_of es
lists_of (wakes ∷ es) = lists_of es

abbrev pub emptied : Recorder → Recorder
emptied r = record r { buffer = [] }

module _ (fopen_ok : List ℕ → Bool) (time : ℕ → List ℕ) (garbage : WavHdr) where
  >>=-some : (o : Option Recorder) → (o >>= λ r. some r) ≡ o
  >>=-some none = refl
  >>=-some (some r) = refl

  -- However the calls of `put_data` and the rounds of the thread follow one another: with one more round at the end, it is as if
  -- all lists that were queued or have been put since were recorded one after the other by one thread, in the order
  -- of the calls, each once, with the same failure if there is one.
  pub all_happen_lem :
      (es : List Turn) (r : Recorder)
      → all_happen fopen_ok time garbage (es ++ (wakes ∷ [])) r
        ≡ record_lists fopen_ok time garbage (emptied r) (r.buffer ++ lists_of es)
  unfolding all_happen happens run_round put_data
  all_happen_lem [] r =
      >>=-some (record_lists fopen_ok time garbage (emptied r) r.buffer)
      ∙ ap (record_lists fopen_ok time garbage (emptied r)) (sym (append-nil r.buffer))
  all_happen_lem (puts sd ∷ es) r =
      all_happen_lem es (put_data r sd).0
      ∙ ap (record_lists fopen_ok time garbage (emptied r))
          (append_assoc r.buffer (sd ∷ []) (lists_of es))
  all_happen_lem (wakes ∷ es) r =
      elim (Option-cases (record_lists fopen_ok time garbage (emptied r) r.buffer)) [
        | inl fails ↦ rw fails (
            sym (
              record_lists-append fopen_ok time garbage r.buffer (lists_of es) (emptied r)
              ∙ rw fails refl))
        | inr (r1, e) ↦
            let clean = buffer-record_lists fopen_ok time garbage r.buffer (emptied r) r1 e in
            rw e (
              all_happen_lem es r1
              ∙ ap
                  (λ b.
                    record_lists fopen_ok time garbage (record r1 { buffer = [] })
                      (b ++ lists_of es))
                  clean
              ∙ ap
                  (λ b. record_lists fopen_ok time garbage (record r1 { buffer = b }) (lists_of es))
                  (sym clean)
              ∙ sym (
                  record_lists-append fopen_ok time garbage r.buffer (lists_of es) (emptied r)
                  ∙ rw e refl))
      ]
