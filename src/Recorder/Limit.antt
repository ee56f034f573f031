-- ===== src/Recorder/Limit.antt =====
-- The recorder of recorder/recorder.cpp with a limit of the size of its files: `pollHotSwap` before each list.
use mathlib.Core.Path.{subst}
use recd.Common.{
  ℕ, ◌≡◌, ◌<◌, refl, sym, ap, ◌∙◌, Bool, true, false, Option, some, List, [], ◌∷◌, ◌++◌, length,
  if◌then◌else◌, ltb, if-true, if-false,
}
use recd.Wav.{Wav, WavHdr}
use recd.Wav.Recording.{IsRecording}
use recd.Wav.Sizes.{get_file_size-IsRecording}
use recd.Recorder.{Recorder, file_name, swap_file, poll_file, for_slots, poll_hot_swap}
use recd.Recorder.Slots.{Channel, AllShow}
use recd.Recorder.Changes.{Changes, Changed, slot-at, for_slots_lem}
use recd.Recorder.Budget.{file_bytes, over}

module _ (fopen_ok : List ℕ → Bool) (time : ℕ → List ℕ) (garbage : WavHdr) where
  poll_closed :
      (r : Recorder) (done ws : List (Option Wav)) (w : Wav)
      → r.wavs ≡ done ++ (some w ∷ ws)
      → w.is_opened ≡ false
      → poll_file fopen_ok time garbage r (length done) ≡ some r
  unfolding poll_file
  poll_closed r done ws w e o = rw (slot-at fopen_ok time garbage r done ws w e) (if-false _ _ o)

  poll_recording :
      (limit : ℕ) (r : Recorder) (done ws : List (Option Wav)) (w : Wav) (ss : List ℕ)
      → r.max_file_size ≡ limit
      → r.wavs ≡ done ++ (some w ∷ ws)
      → IsRecording w ss
      → poll_file fopen_ok time garbage r (length done)
        ≡ (if over limit ss then swap_file fopen_ok time garbage r (length done) w else some r)
  unfolding poll_file
  poll_recording limit r done ws w ss l e v = rw (slot-at fopen_ok time garbage r done ws w e) (
      if-true _ _ v.opened
      ∙ rw (get_file_size-IsRecording w ss v) (
          ap
            (λ (k : ℕ).
              if ltb k (file_bytes ss)
              then swap_file fopen_ok time garbage r (length done) w
              else some r)
            l))

  poll_file-Changes :
      (limit : ℕ)
      → Changes fopen_ok time garbage (over limit) limit (poll_file fopen_ok time garbage)
  poll_file-Changes limit = record {
    at_closed = λ r done ws w l e o. poll_closed r done ws w e o;
    at_recording = λ r done ws w ss l e v. poll_recording limit r done ws w ss l e v;
  }

  -- `pollHotSwap` closes the files over the limit with exactly their samples, and leaves the others alone.
  pub poll_hot_swap_lem :
      (r : Recorder) (cs : List Channel)
      → ((name : List ℕ) → fopen_ok name ≡ true)
      → ((slot uid : ℕ) → length (file_name r.directory slot uid (time uid)) < 64)
      → r.max_chans ≡ length cs
      → AllShow r.wavs cs
      → Changed fopen_ok time garbage
          (over r.max_file_size)
          r
          []
          cs
          (poll_hot_swap fopen_ok time garbage r)
  unfolding poll_hot_swap
  poll_hot_swap_lem r cs opens short n v =
      subst
        (λ k.
          Changed fopen_ok time garbage (over r.max_file_size) r [] cs
            (for_slots fopen_ok time garbage (poll_file fopen_ok time garbage) k 0 r))
        (sym n)
        (for_slots_lem fopen_ok time garbage (over r.max_file_size) r.max_file_size
          (poll_file fopen_ok time garbage) (poll_file-Changes r.max_file_size) cs r [] r.wavs 0
          opens short refl refl refl v)
