-- ===== src/Threads/Create.antt =====
-- `PThread` of utils/thread.cpp: the stack, the priority and the name that `createThread` chooses, and what becomes of
-- the stack. `default_size` is the size that `pthread_attr_getstacksize` stores; a name is its bytes.
use recd.Common.{
  ℕ, zero, suc, ◌+◌, ◌*◌, ◌%◌, ◌^◌, ◌≤◌, ◌<◌, ◌≡◌, refl, Bool, true, false, if◌then◌else◌, Option,
  none, some, List, [], ◌∷◌, ◌++◌, length, take, drop, replicate, ltb, leb, ◌==◌, ◌>>=◌, ◌&&◌, ◌||◌,
  arith,
}
use recd.Common.Int.{ℤ, pos, negsuc}
use recd.Recorder.{int_text}

unfoldable pub chosen_priority : ℤ → ℕ
chosen_priority (pos p) = if ltb 20 p then 20 else p
chosen_priority (negsuc p) = 15

-- `stack_size >= default_size * 2`, and then `stack_size < default_size`
unfoldable pub chosen_stack : ℕ → ℕ → ℕ
chosen_stack default_size size =
    at_least (if leb (default_size * 2 % 2 ^ 64) size then default_size else size)
  where
    at_least : ℕ → ℕ
    at_least n = if ltb n default_size then default_size else n

-- `stack` is the size of the array `m_stack`, `none` the null pointer;
pub record PThread : Type 0 where
  pub stack : Option ℕ
  pub priority : ℕ
  pub name : List ℕ

abbrev pub new_thread : PThread
new_thread = record { stack = none; priority = 0; name = replicate 64 0 }

-- `strncpy` of 64 bytes, which fills with zeros
unfoldable pub set_thread_name : List ℕ → PThread → PThread
set_thread_name name th = record th { name = take 64 (name ++ replicate 64 0) }

-- `strlen(m_name)`; `none` reads behind the array.
unfoldable pub strlen : List ℕ → Option ℕ
strlen [] = none
strlen (c ∷ cs) = let rest = strlen cs in if c == 0 then some 0 else rest >>= λ n. some (n + 1)

-- `snprintf(m_name, 64, "Thread-%d", ...)`
unfoldable pub default_name : ℕ → List ℕ → List ℕ
default_name id old = text ++ (0 ∷ drop (length text + 1) old)
  where
    text : List ℕ
    text = 84 ∷ 104 ∷ 114 ∷ 101 ∷ 97 ∷ 100 ∷ 45 ∷ int_text id

-- `createThread` with a new thread whose id is `id` as an `int`; the name is measured before it is set.
unfoldable pub create_thread : ℕ → ℕ → ℤ → ℕ → PThread → Option PThread
create_thread default_size size priority id th = strlen th.name >>= λ n. some (record {
  stack = some (chosen_stack default_size size);
  priority = chosen_priority priority;
  name = if leb n 0 then default_name id th.name else th.name;
})

-- `delete [] m_stack`, which is what `closeThread` and the destructor do where there is one.
unfoldable pub close_thread : PThread → PThread
close_thread th = elim th.stack [ none ↦ th | some n ↦ record th { stack = none } ]

-- Of a default size of at least one byte and less than 2 ^ 63, the stack is what was asked for where this is at least
-- the default and less than twice as much, and else the default; so it always lies in that range. The priority is at
-- most 20.
pub chosen_bounds :
    (default_size size : ℕ) (priority : ℤ)
    → 0 < default_size
    → default_size < 2 ^ 63
    → (chosen_stack default_size size
        ≡ (if leb default_size size && ltb size (2 * default_size) then size else default_size))
      × (default_size ≤ chosen_stack default_size size)
      × (chosen_stack default_size size < 2 * default_size)
      × (chosen_priority priority ≤ 20)
unfolding chosen_stack chosen_priority
chosen_bounds d n (pos p) h k = (ground arith, ground arith, ground arith, ground arith)
chosen_bounds d n (negsuc p) h k = (ground arith, ground arith, ground arith, omega arith)

unfoldable pub is_some {ℓ} : {A : Type ℓ} → Option A → Bool
is_some none = false
is_some (some a) = true

unfoldable pub has_zero : List ℕ → Bool
has_zero [] = false
has_zero (c ∷ cs) = c == 0 || has_zero cs

strlen-take :
    (n m : ℕ) (cs : List ℕ)
    → n ≤ m
    → has_zero cs ≡ false
    → strlen (take n (cs ++ replicate m 0)) ≡ (if ltb (length cs) n then some (length cs) else none)
unfolding strlen has_zero
strlen-take zero m cs h z = ground arith
strlen-take (suc n) zero cs h z = absurd (omega arith)
strlen-take (suc n) (suc m) [] h z = ground arith
strlen-take (suc n) (suc m) (c ∷ cs) h z = ground (arith, strlen-take n (suc m) cs (omega arith))

is_some-if :
    {A : Type 0} (b : Bool) (n : ℕ) (f : ℕ → A)
    → is_some ((if b then some n else none) >>= λ k. some (f k)) ≡ b
unfolding is_some
is_some-if true n f = refl
is_some-if false n f = refl

-- The name that `setThreadName` sets has its length if that is less than 64; a longer one has no end in the array, and
-- `createThread` then reads behind it. A name is bytes other than 0.
pub create_thread-set_thread_name :
    (name : List ℕ) (default_size size : ℕ) (priority : ℤ) (id : ℕ) (th : PThread)
    → has_zero name ≡ false
    → let named = set_thread_name name th in
      (strlen named.name ≡ (if ltb (length name) 64 then some (length name) else none))
      × (is_some (create_thread default_size size priority id named) ≡ ltb (length name) 64)
unfolding set_thread_name create_thread is_some
create_thread-set_thread_name name d n p id th z =
    (found, rw found (is_some-if (ltb (length name) 64) (length name) _))
  where
    found :
        strlen (take 64 (name ++ replicate 64 0))
        ≡ (if ltb (length name) 64 then some (length name) else none)
    found = strlen-take 64 64 name (omega arith) z
