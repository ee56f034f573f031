-- ===== src/Frame/Tests.antt =====
-- Runs of the checksum on small frames, and the theorems of Frame.Checksum at them.
use recd.Common.{ℕ, ◌+◌, ◌%◌, ◌≡◌, ◌≢◌, ◌<◌, refl, List, [], ◌∷◌, ◌++◌, replicate, arith}
use recd.Frame.{Frame, IsFrame, add_bytes, complement, checksum_lrc, gen_checksum_lrc, covered}
use recd.Frame.Checksum.{
  sum, checksum_lrc-cancels, checksum_lrc-detects, checksum_lrc_ignores_tail, gen_checksum_lrc_lem,
}

abbrev quiet : List ℕ
quiet = replicate 512 0

abbrev nulls : List ℕ
nulls = replicate 64 0

-- The frame with one counter, all samples 0.
abbrev blank : ℕ → Frame
blank n = record { counter = n; data_ = quiet; null_bytes = nulls; checksum = 0 }

-- The last sample, which the checksum does not read, is 7.
abbrev tail_seven : Frame
tail_seven = record (blank 5) { data_ = replicate 511 0 ++ (7 ∷ []) }

blank-IsFrame : (n : ℕ) → n < 300 → IsFrame (blank n)
blank-IsFrame n h = record {
  counter_u32 = omega arith;
  samples = refl;
  sample_i16 = omega arith;
  nulls = refl;
  null_u8 = omega arith;
}

checksum_lrc_run : checksum_lrc (blank 5) ≡ 251
unfolding checksum_lrc add_bytes complement
checksum_lrc_run = refl

checksum_lrc-cancels_applied : (sum (covered (blank 5)) + checksum_lrc (blank 5)) % 256 ≡ 0
checksum_lrc-cancels_applied = checksum_lrc-cancels (blank 5) (blank-IsFrame 5 (omega arith))

gen_checksum_lrc_lem_example :
    let (g, stamp) = gen_checksum_lrc (blank 5) in
    ((sum (covered (blank 5)) + g.checksum) % 256 ≡ 0)
    × ((c : ℕ) → c < 256 → (sum (covered (blank 5)) + c) % 256 ≡ 0 → c ≡ g.checksum)
    × (g ≡ record (blank 5) { checksum = stamp })
    × (checksum_lrc g ≡ stamp)
gen_checksum_lrc_lem_example = gen_checksum_lrc_lem (blank 5) (blank-IsFrame 5 (omega arith))

checksum_lrc-detects_example : checksum_lrc (blank 5) ≢ checksum_lrc (blank 6)
checksum_lrc-detects_example =
    checksum_lrc-detects (blank 5) (blank 6) [] _ 5 6 (blank-IsFrame 5 (omega arith))
      (blank-IsFrame 6 (omega arith)) refl refl (omega arith) (omega arith) (omega arith)

checksum_lrc_ignores_tail_example : checksum_lrc (blank 5) ≡ checksum_lrc tail_seven
checksum_lrc_ignores_tail_example = checksum_lrc_ignores_tail (blank 5) tail_seven refl refl refl
