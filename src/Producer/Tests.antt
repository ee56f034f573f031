-- ===== src/Producer/Tests.antt =====
-- A file of 16 samples played twice.
use recd.Common.{ℕ, ◌≡◌, refl, true, false, some, none, List, [], ◌∷◌, ◌++◌, replicate, collect}
use recd.Wav.{sample_bytes}
use recd.Producer.{Producer, init, worker, deinit, entries, sample}
use recd.Producer.Plays.{dead_entry}

abbrev hdr : List ℕ
hdr = replicate 44 7

abbrev tune : List ℕ
tune = 1 ∷ 2 ∷ 300 ∷ 65535 ∷ 5 ∷ 6 ∷ 7 ∷ 8 ∷ 9 ∷ 10 ∷ 11 ∷ 12 ∷ 13 ∷ 14 ∷ 15 ∷ 16 ∷ []

abbrev stopped : Producer
stopped = record { is_running = false; samples = replicate 76 0 }

no_file : init 16 none stopped ≡ stopped
unfolding init
no_file = refl

halted : worker 16 (false ∷ true ∷ []) (deinit 16 stopped) ≡ some []
unfolding worker
halted = refl

worker_run :
    worker 16
      (true ∷ true ∷ false ∷ [])
      (init 16 (some (hdr ++ (sample_bytes tune ++ (9 ∷ 9 ∷ [])))) stopped)
    ≡ some ((dead_entry ∷ []) ∷ (dead_entry ∷ []) ∷ [])
unfolding worker init entries sample collect
worker_run = refl
