-- ===== src/Recorder/Channels.antt =====
-- What recorder/recorder.cpp does to the file of each channel, for lists recorded one after the other.
use recd.Common.{
  ℕ, ◌+◌, ◌≡◌, ◌<◌, refl, sym, ap, ◌∙◌, Bool, true, Option, none, some, List, [], ◌∷◌, ◌++◌, length,
  ◌>>=◌, arith, length-append, append_assoc, append-nil, Option-cases, inl, inr,
}
use recd.Server.{SampleData}
use recd.Wav.{Wav, WavHdr}
use recd.Recorder.{
  Recorder, file_name, record_entries, record_list, record_lists, run_round, put_data,
}
use recd.Recorder.Slots.{Channel, step_all, AllShow, Fits, AtSlot, record_entry_lem}

-- `put_data` of several lists.
abbrev pub put_all : Recorder → List (List SampleData) → Recorder
put_all r [] = r
put_all r (sd ∷ sds) = put_all (put_data r sd).0 sds

module _ (fopen_ok : List ℕ → Bool) (time : ℕ → List ℕ) (garbage : WavHdr) where
  unfoldable pub Shown : Recorder → List (Option Wav) → List Channel → Option Recorder → Type 0
  Shown r done cs result =
      (r' : Recorder) × (ws : List (Option Wav)) × (result ≡ some r')
      × (r'.wavs ≡ done ++ ws)
      × AllShow ws cs
      × (r'.directory ≡ r.directory)
      × (r'.size_based ≡ r.size_based)
      × (r'.max_chans ≡ r.max_chans)
      × (r'.max_file_size ≡ r.max_file_size)

  pub record_entries_lem :
      (sd : List SampleData) (cs : List Channel) (r : Recorder) (done ws : List (Option Wav))
      (i : ℕ)
      → ((name : List ℕ) → fopen_ok name ≡ true)
      → ((slot uid : ℕ) → length (file_name r.directory slot uid (time uid)) < 64)
      → r.wavs ≡ done ++ ws
      → i ≡ length done
      → AllShow ws cs
      → Fits cs sd
      → Shown r done (step_all cs sd) (record_entries fopen_ok time garbage r i sd)
  unfolding Shown AtSlot record_entries step_all
  record_entries_lem [] [] r done ws i opens short e n v fits =
      (r, ws, refl, e, tt, refl, refl, refl, refl)
  record_entries_lem [] (c ∷ cs) r done ws i opens short e n v fits =
      (r, ws, refl, e, v, refl, refl, refl, refl)
  record_entries_lem (s ∷ sd) [] r done ws i opens short e n v fits = absurd fits
  record_entries_lem (s ∷ sd) (c ∷ cs) r done [] i opens short e n v fits = absurd v
  record_entries_lem (s ∷ sd) (c ∷ cs) r done (none ∷ ws) i opens short e n v fits = absurd v
  record_entries_lem (s ∷ sd) (c ∷ cs) r done (some w ∷ ws) i opens short e n v fits =
      let (r1, w1, e1, d1, v1, dir1, sb1, mc1, mf1) =
        record_entry_lem fopen_ok time garbage r done ws w c s opens short e v.0 fits.0 in
      let (r2, ws2, e2, d2, v2, dir2, sb2, mc2, mf2) =
        record_entries_lem sd cs r1 (done ++ (some w1 ∷ [])) ws (i + 1) opens (rw dir1 short) d1
          (omega (arith, n, length-append done (some w1 ∷ []))) v.1 fits.1 in
      (
        r2,
        some w1 ∷ ws2,
        rw (n, e1, ap (λ k. k + 1) (sym n)) e2,
        d2 ∙ append_assoc done (some w1 ∷ []) ws2,
        (v1, v2),
        dir2 ∙ dir1,
        sb2 ∙ sb1,
        mc2 ∙ mc1,
        mf2 ∙ mf1,
      )

  -- Every list fits.
  abbrev pub AllFit : List Channel → List (List SampleData) → Type 0
  AllFit cs [] = Unit {0}
  AllFit cs (sd ∷ sds) = Fits cs sd × AllFit (step_all cs sd) sds

  pub record_lists-append :
      (xs ys : List (List SampleData)) (r : Recorder)
      → record_lists fopen_ok time garbage r (xs ++ ys) ≡ (
          record_lists fopen_ok time garbage r xs >>= λ r'.
          record_lists fopen_ok time garbage r' ys)
  unfolding record_lists
  record_lists-append [] ys r = refl
  record_lists-append (x ∷ xs) ys r = elim (Option-cases (record_list fopen_ok time garbage r x)) [
    | inl fails ↦ rw fails refl
    | inr (r', e) ↦ rw e (record_lists-append xs ys r')
  ]

  buffer-put_all :
      (sds : List (List SampleData)) (r : Recorder)
      → put_all r sds ≡ record r { buffer = r.buffer ++ sds }
  unfolding put_data
  buffer-put_all [] r = ap (λ b. record r { buffer = b }) (sym (append-nil r.buffer))
  buffer-put_all (sd ∷ sds) r =
      buffer-put_all sds (put_data r sd).0
      ∙ ap (λ b. record r { buffer = b }) (append_assoc r.buffer (sd ∷ []) sds)

  -- Lists that are put between two rounds of the thread are recorded in the next one, each once, in the order of
  -- the calls, after the lists that were queued before them.
  pub run_round-put_all :
      (sds : List (List SampleData)) (r : Recorder)
      → run_round fopen_ok time garbage (put_all r sds)
        ≡ (run_round fopen_ok time garbage r >>= λ r'. record_lists fopen_ok time garbage r' sds)
  unfolding run_round
  run_round-put_all sds r =
      rw (buffer-put_all sds r) (record_lists-append r.buffer sds (record r { buffer = [] }))
