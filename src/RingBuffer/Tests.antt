-- ===== src/RingBuffer/Tests.antt =====
-- Runs of a ring buffer of three places, and the theorems of RingBuffer.Queue at them.
use recd.Common.{ℕ, ◌≡◌, refl, none, some, List, [], ◌∷◌, arith}
use recd.RingBuffer.{construct, init, clear, advance, write, read, read_times, read_all, get_size}
use recd.RingBuffer.Queue.{Op, put, get, run, push, run_queue, ring, run-init, read_all_lem}

abbrev storage : List ℕ
storage = 0 ∷ 0 ∷ 0 ∷ []

abbrev items : List ℕ
items = 7 ∷ 8 ∷ 9 ∷ []

-- The fourth call fills the third place and so loses the items 1 to 3.
abbrev calls : List (Op ℕ)
calls = put 1 ∷ put 2 ∷ get ∷ put 3 ∷ put 4 ∷ get ∷ put 5 ∷ get ∷ []

run_overrun : run 3 (init (construct storage)) calls ≡ some (some 1 ∷ none ∷ some 5 ∷ [])
unfolding run init construct write read advance
run_overrun = refl

-- Before `init`, `read` returns nullptr and `write` is undefined.
before_init : (read 3 (construct storage)).0 ≡ none
unfolding read construct
before_init = refl

write_before_init : write 3 (construct storage) 7 ≡ none
unfolding write construct
write_before_init = refl

-- `getSize` is one less than the number of places.
get_size_run : get_size 512 ≡ 511
unfolding get_size
get_size_run = refl

clear_keeps_heads : (clear 0 (ring 3 1 2 items)).m_buffer ≡ storage
unfolding clear
clear_keeps_heads = refl

read_all_run : read_all 3 (ring 3 0 2 items) ≡ some (7 ∷ 8 ∷ [], ring 3 2 2 items)
unfolding read_all read_times read advance
read_all_run = refl

run-init_example : run 3 (init (construct storage)) calls ≡ some (some 1 ∷ none ∷ some 5 ∷ [])
unfolding run_queue push construct
run-init_example = run-init 3 0 (construct storage) calls refl (omega arith)

-- The read head is past the write head.
read_all_lem_applied : read_all 3 (ring 3 2 1 items) ≡ none
read_all_lem_applied = read_all_lem 3 0 items 2 1 refl (omega arith) (omega arith)
