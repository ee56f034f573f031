-- ===== src/RingBuffer/Queue.antt =====
-- A ring buffer whose heads are set behaves as a queue of at most SIZE - 1 items; the write that would make
-- it SIZE items makes it empty instead.
use mathlib.Core.Option
use mathlib.Core.Path.{ap₂}
use native.Mathlib.Numerals.{add-one}
use recd.Common.{
  ℕ, zero, suc, ◌+◌, ◌-◌, ◌≡◌, ◌≢◌, ◌<◌, ◌≤◌, refl, sym, ap, ◌∙◌, true, false, Option, none, some,
  List, [], ◌∷◌, ◌++◌, length, get_or, set, ltb, leb, ◌==◌, if◌then◌else◌, ◌>>=◌, arith, Bool-cases,
  inl, inr, length-set, get_or-set_self, get_or-set_ne, get_elem?-eq-get_or,
}
use recd.RingBuffer.{RingBuffer, init, advance, write, read, read_times, read_all}

-- The calls of a client, and what it sees: the item of a `read`, none for nullptr.
pub data Op {ℓ} (T : Type ℓ) : Type ℓ where
  put : T → Op T
  get : Op T

module _ {ℓ} {T : Type ℓ} (SIZE : ℕ) where
  -- The calls in order; none where one of them is undefined.
  unfoldable pub run : RingBuffer T → List (Op T) → Option (List (Option T))
  run b [] = some []
  run b (put t ∷ ops) = write SIZE b t >>= λ b'. run b' ops
  run b (get ∷ ops) = let (item, b') = read SIZE b in Option.map (λ rest. item ∷ rest) (run b' ops)

  -- The queue: `put` on SIZE - 1 items loses them all.
  unfoldable pub push : List T → T → List T
  push q t = if length q + 1 == SIZE then [] else q ++ (t ∷ [])

  unfoldable pub run_queue : List T → List (Op T) → List (Option T)
  run_queue q [] = []
  run_queue q (put t ∷ ops) = run_queue (push q t) ops
  run_queue [] (get ∷ ops) = none ∷ run_queue [] ops
  run_queue (x ∷ q) (get ∷ ops) = some x ∷ run_queue q ops

  abbrev pub ring : ℕ → ℕ → List T → RingBuffer T
  ring r w buf = record { r_head = some r; w_head = some w; m_buffer = buf }

  module _ (nil : T) (buf : List T) where
    -- The `n` items from index `h` on, in the order of `advance`.
    pub window : ℕ → ℕ → List T
    window h zero = []
    window h (suc n) = get_or buf h nil ∷ window (advance SIZE h) n

-- The number of items from the read head to the write head.
abbrev pub count : ℕ → ℕ → ℕ → ℕ
count SIZE r w = if leb r w then w - r else w + SIZE - r

-- `n` steps of `advance` from `h`, for `n` up to SIZE.
abbrev after : ℕ → ℕ → ℕ → ℕ
after SIZE h n = if ltb (h + n) SIZE then h + n else h + n - SIZE

advance-lt : (SIZE i : ℕ) → i < SIZE → advance SIZE i < SIZE
unfolding advance
advance-lt SIZE i h = ground arith

count-advance_r :
    (SIZE r w : ℕ)
    → r < SIZE
    → w < SIZE
    → r ≢ w
    → count SIZE r w ≡ suc (count SIZE (advance SIZE r) w)
unfolding advance
count-advance_r SIZE r w hr hw ne = ground arith

count-advance_w :
    (SIZE r w : ℕ)
    → r < SIZE
    → w < SIZE
    → count SIZE r (advance SIZE w) ≡ (if count SIZE r w + 1 == SIZE then 0 else count SIZE r w + 1)
unfolding advance
count-advance_w SIZE r w hr hw = ground arith

after-count : (SIZE r w : ℕ) → r < SIZE → w < SIZE → w ≡ after SIZE r (count SIZE r w)
after-count SIZE r w hr hw = ground arith

after-ne : (SIZE h n : ℕ) → h < SIZE → suc n < SIZE → after SIZE h (suc n) ≢ h
after-ne SIZE h n hh hn e = ground arith

after-advance :
    (SIZE h n : ℕ) → h < SIZE → n < SIZE → after SIZE h (suc n) ≡ after SIZE (advance SIZE h) n
unfolding advance
after-advance SIZE h n hh hn = ground arith

module _ {ℓ} {T : Type ℓ} (SIZE : ℕ) (nil : T) where
  length-window : (buf : List T) (h n : ℕ) → length (window SIZE nil buf h n) ≡ n
  unfolding window
  length-window buf h zero = refl
  length-window buf h (suc n) = ap suc (length-window buf (advance SIZE h) n)

  -- Writing just past a window extends it by the item.
  window-set :
      (buf : List T) (x : T) (n h i : ℕ)
      → length buf ≡ SIZE
      → h < SIZE
      → n < SIZE
      → i ≡ after SIZE h n
      → window SIZE nil (set buf i x) h (suc n) ≡ window SIZE nil buf h n ++ (x ∷ [])
  unfolding window
  window-set buf x zero h i len hh hn e =
      let e' : i ≡ h = ground arith in
      rw e' (ap (λ y. y ∷ []) (get_or-set_self buf h x nil (omega arith)))
  window-set buf x (suc n) h i len hh hn e =
      ap₂ ◌∷◌ (get_or-set_ne buf x nil (λ q. after-ne SIZE h n hh hn (sym e ∙ q))) (
        window-set buf x n (advance SIZE h) i len (advance-lt SIZE h hh) (omega arith)
          (e ∙ after-advance SIZE h n hh (omega arith)))

  -- What the queue holds between the heads.
  abbrev pub contents : List T → ℕ → ℕ → List T
  contents buf r w = window SIZE nil buf r (count SIZE r w)

  contents-write :
      (buf : List T) (r w : ℕ) (t : T)
      → length buf ≡ SIZE
      → r < SIZE
      → w < SIZE
      → contents (set buf w t) r (advance SIZE w) ≡ push SIZE (contents buf r w) t
  unfolding push window
  contents-write buf r w t len hr hw = elim (Bool-cases (count SIZE r w + 1 == SIZE)) [
    | inl full ↦
        rw (count-advance_w SIZE r w hr hw, full, length-window buf r (count SIZE r w), full)
    | inr room ↦
        rw (count-advance_w SIZE r w hr hw, room, length-window buf r (count SIZE r w), room)
          (rw (add-one (count SIZE r w)) (
            window-set buf t (count SIZE r w) r w len hr (ground arith)
              (after-count SIZE r w hr hw)))
  ]

  read_empty :
      (buf : List T) (r w : ℕ)
      → (r == w) ≡ true
      → (read SIZE (ring SIZE r w buf) ≡ (none, ring SIZE r w buf)) × (contents buf r w ≡ [])
  unfolding read window
  read_empty buf r w e = (rw e, rw zero_count)
    where
      zero_count : count SIZE r w ≡ 0
      zero_count = ground arith

  read_item :
      (buf : List T) (r w : ℕ)
      → length buf ≡ SIZE
      → r < SIZE
      → w < SIZE
      → (r == w) ≡ false
      → (read SIZE (ring SIZE r w buf)
          ≡ (some (get_or buf r nil), ring SIZE (advance SIZE r) w buf))
        × (contents buf r w ≡ get_or buf r nil ∷ contents buf (advance SIZE r) w)
  unfolding read window
  read_item buf r w len hr hw e = (
    rw (e, get_elem?-eq-get_or buf r nil (omega arith)),
    rw (count-advance_r SIZE r w hr hw (ground arith)),
  )

  -- A buffer with its heads in range answers any sequence of calls as the queue of its contents does.
  run_refines :
      (ops : List (Op T)) (buf : List T) (r w : ℕ)
      → length buf ≡ SIZE
      → r < SIZE
      → w < SIZE
      → run SIZE (ring SIZE r w buf) ops ≡ some (run_queue SIZE (contents buf r w) ops)
  unfolding run run_queue write
  run_refines [] buf r w len hr hw = refl
  run_refines (put t ∷ ops) buf r w len hr hw =
      run_refines ops (set buf w t) r (advance SIZE w) (length-set buf w t ∙ len) hr
        (advance-lt SIZE w hw)
      ∙ ap (λ q. some (run_queue SIZE q ops)) (contents-write buf r w t len hr hw)
  run_refines (get ∷ ops) buf r w len hr hw = elim (Bool-cases (r == w)) [
    | inl e ↦
        rw ((read_empty buf r w e).0, run_refines ops buf r w len hr hw, (read_empty buf r w e).1)
    | inr e ↦ rw (
      (read_item buf r w len hr hw e).0,
      (read_item buf r w len hr hw e).1,
      run_refines ops buf (advance SIZE r) w len (advance-lt SIZE r hr) hw,
    )
  ]

  -- From `init` on, with storage for SIZE items, no call of `write` or `read` is undefined, whatever
  -- their order: each `read` returns what the queue returns that starts empty, keeps at most
  -- SIZE - 1 items in order, and becomes empty by a `write` when it has SIZE - 1 items.
  pub run-init :
      (b : RingBuffer T) (ops : List (Op T))
      → length b.m_buffer ≡ SIZE
      → 0 < SIZE
      → run SIZE (init b) ops ≡ some (run_queue SIZE [] ops)
  unfolding init window
  run-init b ops len h =
      run_refines ops b.m_buffer 0 0 len h h
      ∙ ap (λ q. some (run_queue SIZE q ops)) (read_empty b.m_buffer 0 0 refl).1

  advance_inside : (r w : ℕ) → r < w → w < SIZE → advance SIZE r ≡ suc r
  unfolding advance
  advance_inside r w h k = ground arith

  read_times-window :
      (n : ℕ) (buf : List T) (r w : ℕ)
      → length buf ≡ SIZE
      → w < SIZE
      → r + n ≡ w
      → read_times SIZE n (ring SIZE r w buf) ≡ some (window SIZE nil buf r n, ring SIZE w w buf)
  unfolding read_times window
  read_times-window zero buf r w len hw e = let same : r ≡ w = omega arith in rw same
  read_times-window (suc n) buf r w len hw e =
      let step = (read_item buf r w len (omega arith) hw (ground arith)).0 in
      rw (
        step,
        read_times,
        step,
        advance_inside r w (omega arith) hw,
        read_times-window n buf (suc r) w len hw (omega arith),
      )

  -- `readAll` with the write head at or after the read head returns the contents in order and leaves the
  -- buffer empty; with the write head before the read head it asks for a negative number of items.
  pub read_all_lem :
      (buf : List T) (r w : ℕ)
      → length buf ≡ SIZE
      → r < SIZE
      → w < SIZE
      → read_all SIZE (ring SIZE r w buf)
        ≡ (if ltb w r then none else some (contents buf r w, ring SIZE w w buf))
  unfolding read_all
  read_all_lem buf r w len hr hw = elim (Bool-cases (w == r)) [
    | inl e ↦
        let same : w ≡ r = ground arith in
        rw (same_test e, not_before e, (read_empty buf r w (ground arith)).1) (rw same)
    | inr e ↦ elim (Bool-cases (ltb w r)) [
      | inl before ↦ rw (e, before)
      | inr past ↦
          rw (e, past, read_times-window (w - r) buf r w len hw (ground arith), span (ground arith))
    ]
  ]
    where
      same_test : (w == r) ≡ true → (w == r) ≡ true
      same_test e = e

      not_before : (w == r) ≡ true → ltb w r ≡ false
      not_before e = ground arith

      span : r ≤ w → count SIZE r w ≡ w - r
      span h = ground arith
