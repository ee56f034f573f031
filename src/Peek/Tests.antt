-- ===== src/Peek/Tests.antt =====
-- Runs of the helper, and its theorems at small inputs.
use recd.Common.{◌≡◌, refl, arith, none, some, [], ◌∷◌, replicate}
use recd.Frame.{Frame}
use recd.Peek.{
  new_helper, abs_i16, louder, loudest, peek, copy_channel, peek_channels, peek_frames, take_buffer,
  run_round,
}
use recd.Peek.Loudest.{AllPlain, max, greatest, peek_lem, run_round_idle}

-- 65526 is -10.
peek_lem_example :
    peek (3 ∷ 65526 ∷ 4 ∷ []) new_helper ≡ (10, record new_helper { peek_value = 10 })
unfolding AllPlain greatest max abs_i16
peek_lem_example = peek_lem 3 (65526 ∷ 4 ∷ []) new_helper (omega arith) (
  omega arith,
  (λ e. omega arith),
  (omega arith, (λ e. omega arith), (omega arith, (λ e. omega arith), _)),
)

-- After -32768 every sample counts as louder.
minimum_run : (peek (20 ∷ 32768 ∷ 4 ∷ []) new_helper).0 ≡ 4
unfolding peek loudest louder abs_i16
minimum_run = refl

abbrev frame : Frame
frame = record { counter = 1; data_ = 1 ∷ 2 ∷ 3 ∷ 9 ∷ []; null_bytes = []; checksum = 0 }

-- Of the two channels of the frame, with junk in the second half of the array.
channels_run :
    peek_frames 2 2 (frame ∷ []) (0 ∷ 0 ∷ 7 ∷ 0 ∷ []) (0 ∷ 0 ∷ []) new_helper
    ≡ some (7 ∷ 9 ∷ [], new_helper)
unfolding peek_frames peek_channels copy_channel peek loudest louder abs_i16
channels_run = refl

-- On an empty buffer the loop takes an element that is not there.
empty_run : run_round 2 2 1 (λ n. replicate n 0) [] [] new_helper ≡ none
unfolding run_round take_buffer
empty_run = refl

idle_run :
    run_round 2 2 1 (λ n. replicate n 0) [] [] (record new_helper { buffer = frame ∷ [] })
    ≡ some (none, [], record new_helper { buffer = frame ∷ [] })
idle_run = run_round_idle 2 2 1 (λ n. replicate n 0) [] frame [] new_helper (omega arith)
