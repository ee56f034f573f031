-- ===== src/Recorder/Swap.antt =====
-- The change of all files by `hotSwapFiles` of recorder/recorder.cpp.
use mathlib.Core.Path.{subst}
use recd.Common.{
  ℕ, ◌≡◌, ◌<◌, refl, sym, ap, ◌∙◌, Bool, true, false, Option, some, List, [], ◌∷◌, ◌++◌, length,
  if-true, if-false,
}
use recd.Wav.{Wav, WavHdr}
use recd.Recorder.{Recorder, file_name, swap_file, hot_swap_file, for_slots, hot_swap_files}
use recd.Recorder.Slots.{Channel, AllShow}
use recd.Recorder.Changes.{
  AllHold, recorded_where, changed_where, Changes, Changed, slot-at, for_slots_lem,
}

-- What the open files have recorded, and the channels after the change.
abbrev pub recorded : List Channel → List (List ℕ)
recorded = recorded_where (λ ss. true)

abbrev pub changed : List Channel → List Channel
changed = changed_where (λ ss. true)

module _ (fopen_ok : List ℕ → Bool) (time : ℕ → List ℕ) (garbage : WavHdr) where
  hot_swap_closed :
      (r : Recorder) (done ws : List (Option Wav)) (w : Wav)
      → r.wavs ≡ done ++ (some w ∷ ws)
      → w.is_opened ≡ false
      → hot_swap_file fopen_ok time garbage r (length done) ≡ some r
  unfolding hot_swap_file
  hot_swap_closed r done ws w e o =
      rw (slot-at fopen_ok time garbage r done ws w e) (if-false _ _ o)

  hot_swap_opened :
      (r : Recorder) (done ws : List (Option Wav)) (w : Wav)
      → r.wavs ≡ done ++ (some w ∷ ws)
      → w.is_opened ≡ true
      → hot_swap_file fopen_ok time garbage r (length done)
        ≡ swap_file fopen_ok time garbage r (length done) w
  unfolding hot_swap_file
  hot_swap_opened r done ws w e o = rw (slot-at fopen_ok time garbage r done ws w e) (if-true _ _ o)

  hot_swap_file-Changes :
      (limit : ℕ)
      → Changes fopen_ok time garbage (λ ss. true) limit (hot_swap_file fopen_ok time garbage)
  hot_swap_file-Changes limit = record {
    at_closed = λ r done ws w l e o. hot_swap_closed r done ws w e o;
    at_recording = λ r done ws w ss l e v. hot_swap_opened r done ws w e v.opened;
  }

  -- Where files open and their names fit, a change of all files succeeds: each open file is closed with exactly the
  -- samples that it had recorded, and its slot has a new one, without samples; a slot without an open file stays so.
  pub hot_swap_files_lem :
      (r : Recorder) (cs : List Channel)
      → ((name : List ℕ) → fopen_ok name ≡ true)
      → ((slot uid : ℕ) → length (file_name r.directory slot uid (time uid)) < 64)
      → r.max_chans ≡ length cs
      → AllShow r.wavs cs
      → (r' : Recorder) × (olds : List Wav) × (hot_swap_files fopen_ok time garbage r ≡ some r')
        × AllShow r'.wavs (changed cs)
        × (r'.finished ≡ r.finished ++ olds)
        × AllHold olds (recorded cs)
  unfolding hot_swap_files Changed
  hot_swap_files_lem r cs opens short n v =
      let (r', ws, olds, e, d, v', f, h, dir, sb, mc, mf) =
        for_slots_lem fopen_ok time garbage (λ ss. true) r.max_file_size
          (hot_swap_file fopen_ok time garbage) (hot_swap_file-Changes r.max_file_size) cs r []
          r.wavs 0 opens short refl refl refl v in
      (
        r',
        olds,
        ap (λ k. for_slots fopen_ok time garbage (hot_swap_file fopen_ok time garbage) k 0 r) n ∙ e,
        subst (λ l. AllShow l (changed cs)) (sym d) v',
        f,
        h,
      )
