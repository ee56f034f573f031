-- ===== src/Peek/Loudest.antt =====
-- What the helper of udp-streamer/helper.cpp finds.
use recd.Common.{
  ℕ, ◌^◌, ◌<◌, ◌≡◌, ◌≢◌, sym, ap, ◌∙◌, if◌then◌else◌, none, some, List, [], ◌∷◌, arith, ltb,
  if-true,
}
use recd.Frame.{Frame}
use recd.Peek.{Helper, abs_i16, louder, loudest, peek, run_round, take_buffer}

-- An int16_t other than -32768, whose absolute value is none.
unfoldable pub AllPlain : List ℕ → Type 0
AllPlain [] = Unit {0}
AllPlain (s ∷ ss) = (s < 2 ^ 16) × (s ≢ 2 ^ 15) × AllPlain ss

unfoldable pub max : ℕ → ℕ → ℕ
max a b = if ltb a b then b else a

unfoldable pub greatest : List ℕ → ℕ
greatest [] = 0
greatest (s ∷ ss) = max (abs_i16 s) (greatest ss)

louder_lem :
    (p s : ℕ)
    → p < 2 ^ 15
    → s < 2 ^ 16
    → s ≢ 2 ^ 15
    → (louder p s ≡ max p (abs_i16 s)) × (louder p s < 2 ^ 15)
unfolding louder abs_i16 max
louder_lem p s h k n = (ground arith, ground arith)

max_assoc : (a b c : ℕ) → max (max a b) c ≡ max a (max b c)
unfolding max
max_assoc a b c = ground arith

max_zero : (p : ℕ) → max p 0 ≡ p
unfolding max
max_zero p = ground arith

loudest_lem : (ss : List ℕ) (p : ℕ) → p < 2 ^ 15 → AllPlain ss → loudest p ss ≡ max p (greatest ss)
unfolding loudest greatest AllPlain
loudest_lem [] p h v = sym (max_zero p)
loudest_lem (s ∷ ss) p h v =
    loudest_lem ss (louder p s) (louder_lem p s h v.0 v.1).1 v.2
    ∙ ap (λ q. max q (greatest ss)) (louder_lem p s h v.0 v.1).0
    ∙ max_assoc p (abs_i16 s) (greatest ss)

-- Of samples other than -32768, `peek` gives the greatest absolute value of them and of what the helper had found
-- before, and keeps it.
pub peek_lem :
    (s : ℕ) (ss : List ℕ) (h : Helper)
    → h.peek_value < 2 ^ 15
    → AllPlain (s ∷ ss)
    → let found = max h.peek_value (greatest (s ∷ ss)) in
      peek (s ∷ ss) h ≡ (found, record h { peek_value = found })
unfolding peek
peek_lem s ss h k v =
    ap (λ r. (r, record h { peek_value = r })) (loudest_lem (s ∷ ss) h.peek_value k v)

-- The thread never prints a value: where its buffer has frames, a round takes none of them and prints nothing, as long
-- as it has to wait for at least one frame.
pub run_round_idle :
    (channels per peek_size : ℕ) (junk : ℕ → List ℕ) (peeks : List ℕ) (f : Frame) (fs : List Frame)
    (h : Helper)
    → 0 < peek_size
    → let waiting = record h { buffer = f ∷ fs } in
      run_round channels per peek_size junk peeks [] waiting ≡ some (none, [], waiting)
unfolding run_round take_buffer
run_round_idle channels per peek_size junk peeks f fs h k =
    if-true {b = ltb 0 peek_size} (some (none, [], record h { buffer = f ∷ fs })) _ (ground arith)
