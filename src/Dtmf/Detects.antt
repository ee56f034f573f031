-- ===== src/Dtmf/Detects.antt =====
-- What the detector of DFT/dtmf.cpp is given.
use recd.Common.{
  ℕ, zero, suc, ◌+◌, ◌≤◌, ◌<◌, ◌≡◌, sym, ap, ◌∙◌, some, none, List, [], ◌∷◌, ◌++◌, arith,
  append-nil, append_assoc, length, length-append, replicate, ltb, leb, if◌then◌else◌, ◌>>=◌,
  if-true, if-false,
}
use recd.Writer.Files.{concat}
use recd.Server.{SampleData}
use recd.Dtmf.{entry_samples, fill_dtmf, run_round}

le-length-concat :
    (k : ℕ) (samples : List ℕ) → 0 < length samples → k ≤ length (concat (replicate k samples))
unfolding concat
le-length-concat zero samples h = omega arith
le-length-concat (suc k) samples h =
    omega
      (arith, length-append samples (concat (replicate k samples)), le-length-concat k samples h)

fill_dtmf_lem :
    (k n frame_size : ℕ) (e : SampleData) (samples written : List ℕ)
    → entry_samples e ≡ some samples
    → 0 < length samples
    → length written + length (concat (replicate k samples)) ≡ frame_size
    → k < n
    → fill_dtmf n frame_size e written ≡ some (written ++ concat (replicate k samples))
unfolding fill_dtmf concat
fill_dtmf_lem k zero frame_size e samples written read h t b = absurd (omega arith)
fill_dtmf_lem zero (suc n) frame_size e samples written read h t b =
    if-true {b = leb frame_size (length written)} _ _ (ground arith)
    ∙ ap some (sym (append-nil written))
fill_dtmf_lem (suc k) (suc n) frame_size e samples written read h t b =
    if-false {b = leb frame_size (length written)} _ _ (ground (arith, total))
    ∙ ap
        (λ o. o >>= λ ss.
          if ltb frame_size (length (written ++ ss))
          then none
          else fill_dtmf n frame_size e (written ++ ss))
        read
    ∙ if-false {b = ltb frame_size (length (written ++ samples))} _ _
        (ground (arith, total, length-append written samples))
    ∙ fill_dtmf_lem k n frame_size e samples (written ++ samples) read h
        (omega (arith, t, total, length-append written samples)) (omega arith)
    ∙ ap some (append_assoc written samples (concat (replicate k samples)))
  where
    total :
        length (samples ++ concat (replicate k samples))
        ≡ length samples + length (concat (replicate k samples))
    total = length-append samples (concat (replicate k samples))

-- The buffer has at least `frame_size` entries, and the first one's size divides `frame_size`: the detector gets the samples of
-- this one entry, over and over, and all other entries are dropped.
pub run_round_lem :
    (e : SampleData) (es : List SampleData) (k frame_size : ℕ) (samples : List ℕ)
    → entry_samples e ≡ some samples
    → 0 < length samples
    → length (concat (replicate k samples)) ≡ frame_size
    → frame_size ≤ length es + 1
    → run_round frame_size (e ∷ es) ≡ some (some (concat (replicate k samples)), [])
unfolding run_round
run_round_lem e es k frame_size samples read h d full =
    if-false {b = ltb (length (e ∷ es)) frame_size} _ _ (ground arith)
    ∙ ap (λ o. o >>= λ array. some (some array, []))
        (fill_dtmf_lem k (frame_size + 1) frame_size e samples [] read h (omega (arith, d))
          (omega (arith, d, le-length-concat k samples h)))
