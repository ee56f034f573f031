-- ===== src/Producer/Plays.antt =====
-- What the producer's worker puts: entries whose samples are gone.
use recd.Common.{
  ℕ, zero, suc, ◌+◌, ◌*◌, ◌^◌, ◌≡◌, ◌<◌, refl, sym, ap, ◌∙◌, true, false, none, some, List, [], ◌∷◌,
  ◌++◌, length, take, drop, replicate, get_elem?, get_or, if-true, if-false, ltb, ◌>>=◌,
  collect-tabulate, append_assoc, take_append, drop_append, nothing_over, length-append, arith,
}
use recd.Frame.{AllBelow}
use recd.Wav.{sample_bytes}
use recd.Wav.Recording.{length-sample_bytes}
use recd.Producer.{Producer, Played, sample, init, entries, worker}

two_more : (i : ℕ) → 2 * suc i ≡ suc (suc (2 * i))
two_more i = omega arith

-- The bytes of a list of samples give its samples again.
get_elem?-sample_bytes :
    (ss rest : List ℕ) (i : ℕ)
    → AllBelow (2 ^ 16) ss
    → i < length ss
    → (get_elem? (sample_bytes ss ++ rest) (2 * i) >>= λ lo.
        get_elem? (sample_bytes ss ++ rest) (suc (2 * i)) >>= λ hi. some (lo + 256 * hi))
      ≡ some (get_or ss i 0)
get_elem?-sample_bytes [] rest i b h = absurd (omega arith)
get_elem?-sample_bytes (s ∷ ss) rest zero b h = ap some (omega (arith, b.0))
get_elem?-sample_bytes (s ∷ ss) rest (suc i) b h =
    ap
      (λ k. get_elem? (sample_bytes (s ∷ ss) ++ rest) k >>= λ lo.
        get_elem? (sample_bytes (s ∷ ss) ++ rest) (suc k) >>= λ hi. some (lo + 256 * hi))
      (two_more i)
    ∙ get_elem?-sample_bytes ss rest i b.1 (omega arith)

sample-recorded :
    (hdr ss rest : List ℕ) (i : ℕ)
    → length hdr ≡ 44
    → AllBelow (2 ^ 16) ss
    → i < length ss
    → sample (hdr ++ (sample_bytes ss ++ rest)) i ≡ some (get_or ss i 0)
unfolding sample
sample-recorded hdr ss rest i l b h =
    rw (drop_append 44 hdr (sample_bytes ss ++ rest) (sym l)) (get_elem?-sample_bytes ss rest i b h)

abbrev pub dead_entry : Played
dead_entry = record { signal = 0; samples = none; size = 16 }

module _ (SMPL_SIZE : ℕ) where
  entries_lem :
      (k n : ℕ) (samples ss : List ℕ) (i : ℕ)
      → ((j : ℕ) → j < SMPL_SIZE → sample samples j ≡ some (get_or ss j 0))
      → i + k * 16 ≡ SMPL_SIZE
      → k < n
      → entries SMPL_SIZE n samples i ≡ some (replicate k dead_entry)
  unfolding entries
  entries_lem k zero samples ss i h m b = absurd (omega arith)
  entries_lem zero (suc n) samples ss i h m b = if-false {b = ltb i SMPL_SIZE} _ _ (ground arith)
  entries_lem (suc k) (suc n) samples ss i h m b =
      if-true {b = ltb i SMPL_SIZE} _ _ (grind arith)
      ∙ rw
          (
            collect-tabulate 16 i (sample samples) _ λ j hj. h j (omega arith),
            entries_lem k n samples ss (i + 16) h (omega arith) (omega arith),
          )
          refl

module _ (SMPL_SIZE : ℕ) where
  -- What `init` reads of a file that has at least all samples.
  init_lem :
      (p : Producer) (hdr ss more : List ℕ)
      → length hdr ≡ 44
      → length ss ≡ SMPL_SIZE
      → length p.samples ≡ 44 + 2 * SMPL_SIZE
      → init SMPL_SIZE (some (hdr ++ (sample_bytes ss ++ more))) p
        ≡ record { is_running = true; samples = hdr ++ (sample_bytes ss ++ []) }
  unfolding init
  init_lem p hdr ss more l m e =
      let whole : length (hdr ++ sample_bytes ss) ≡ 44 + 2 * SMPL_SIZE =
        length-append hdr (sample_bytes ss) ∙ omega (arith, l, length-sample_bytes ss, m) in
      ap (λ r. record { is_running = true; samples = r ++ drop (length r) p.samples })
        (ap (take (44 + 2 * SMPL_SIZE)) (sym (append_assoc hdr (sample_bytes ss) more))
          ∙ take_append (44 + 2 * SMPL_SIZE) (hdr ++ sample_bytes ss) more (sym whole))
      ∙ ap (λ r. record { is_running = true; samples = (hdr ++ sample_bytes ss) ++ r })
          (nothing_over (length (hdr ++ sample_bytes ss)) p.samples (omega (arith, whole, e)))
      ∙ ap (λ r. record { is_running = true; samples = r }) (append_assoc hdr (sample_bytes ss) [])

  worker_times :
      (n : ℕ) (p : Producer) (ls : List Played)
      → entries SMPL_SIZE (suc SMPL_SIZE) p.samples 0 ≡ some ls
      → worker SMPL_SIZE (replicate n true ++ (false ∷ [])) p ≡ some (replicate n ls)
  unfolding worker
  worker_times zero p ls h = refl
  worker_times (suc n) p ls h = rw (h, worker_times n p ls h) refl

  -- A file with a header of 44 bytes and at least as many samples as `SMPL_SIZE`, a multiple of 16: no sample is read outside
  -- the array, and each round until the plugin is stopped puts one list, of one entry of 16 samples for each 16 samples of
  -- the file, whose storage is gone.
  pub worker-init :
      (k n : ℕ) (p : Producer) (hdr ss more : List ℕ)
      → SMPL_SIZE ≡ k * 16
      → length hdr ≡ 44
      → length ss ≡ SMPL_SIZE
      → AllBelow (2 ^ 16) ss
      → length p.samples ≡ 44 + 2 * SMPL_SIZE
      → worker SMPL_SIZE
          (replicate n true ++ (false ∷ []))
          (init SMPL_SIZE (some (hdr ++ (sample_bytes ss ++ more))) p)
        ≡ some (replicate n (replicate k dead_entry))
  worker-init k n p hdr ss more size l m b e =
      ap (worker SMPL_SIZE (replicate n true ++ (false ∷ []))) (init_lem p hdr ss more l m e)
      ∙ worker_times n _ (replicate k dead_entry) (
          entries_lem SMPL_SIZE k (suc SMPL_SIZE) (hdr ++ (sample_bytes ss ++ [])) ss 0
            (λ j h. sample-recorded hdr ss [] j l b (omega arith)) (omega arith) (omega arith))
