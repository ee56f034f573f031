-- ===== src/SpinLock/Exclusion.antt =====
-- Mutual exclusion of the spin lock of utils/thread.cpp, for every interleaving.
use mathlib.Core.Path.{subst}
use recd.Common.{
  at, at_self, at-ne, ℕ, ◌+◌, ◌-◌, ◌%◌, ◌^◌, ◌<◌, ◌≡◌, ◌≢◌, ◌⊎◌, inl, inr, refl, sym, ap, ◌∙◌, Bool,
  true, false, ◌==◌, ==_iff, Bool-cases, arith,
}
use recd.SpinLock.{
  Place, outside, counting, leaving, testing, Lock, unlocked, Step, own, take_free, count_up,
  start_unlock, count_down, still_held, release, Steps, done, more,
}

-- Inside a call; and what the count is above the number of times that the thread holds the lock.
abbrev busy : Place → Bool
busy outside = false
busy counting = true
busy leaving = true
busy testing = true

abbrev pub extra : Place → ℕ
extra outside = 0
extra counting = 0
extra leaving = 1
extra testing = 0

abbrev IsIdle : Lock → ℕ → Type 0
IsIdle s u = (busy (s.place u) ≡ false) × (s.held u ≡ 0)

pub record HeldBy (s : Lock) (t : ℕ) : Type 0 where
  pub owner : s.thread_id ≡ t
  pub bound : s.lck_count < 2 ^ 32
  pub count : s.lck_count ≡ s.held t + extra (s.place t)
  pub others : (u : ℕ) → u ≢ t → IsIdle s u

pub record IsFree (s : Lock) : Type 0 where
  pub no_owner : s.thread_id ≡ 0
  pub no_count : s.lck_count ≡ 0
  pub all_idle : (u : ℕ) → IsIdle s u

abbrev pub Inv : Lock → Type 0
Inv s = IsFree s ⊎ ((t : ℕ) × (t ≢ 0) × HeldBy s t)

-- A thread inside a call has the lock.
held-busy : (s : Lock) (t : ℕ) → busy (s.place t) ≡ true → Inv s → HeldBy s t
held-busy s t b (inl free) = absurd (ground (arith, b, (free.all_idle t).0))
held-busy s t b (inr (o, nz, h)) = elim (Bool-cases (t == o)) [
  | inl same ↦ subst (HeldBy s) (sym ((==_iff t o).0 same)) h
  | inr other ↦ absurd (ground (arith, b, (h.others t (λ e. ground (arith, other, e))).0))
]

held-owner : (s : Lock) (t : ℕ) → t ≢ 0 → s.thread_id ≡ t → Inv s → HeldBy s t
held-owner s t nz e (inl free) = absurd (nz (sym e ∙ free.no_owner))
held-owner s t nz e (inr (o, oz, h)) = subst (HeldBy s) (sym h.owner ∙ e) h

-- The owner moves on: its place, its count and its number change, and those of the others do not.
moved :
    (s : Lock) (t n k : ℕ) (p : Place)
    → HeldBy s t
    → n < 2 ^ 32
    → n ≡ k + extra p
    → HeldBy (record s { lck_count = n; place = at s.place t p; held = at s.held t k }) t
moved s t n k p h b e = record {
  owner = h.owner;
  bound = b;
  count = rw (at_self s.held t k, at_self s.place t p) e;
  others = λ u ne. rw (at-ne s.held t u k ne, at-ne s.place t u p ne) (h.others u ne);
}

placed :
    (s : Lock) (t n : ℕ) (p : Place)
    → HeldBy s t
    → n < 2 ^ 32
    → n ≡ s.held t + extra p
    → HeldBy (record s { lck_count = n; place = at s.place t p }) t
placed s t n p h b e = record {
  owner = h.owner;
  bound = b;
  count = rw (at_self s.place t p) e;
  others = λ u ne. rw (at-ne s.place t u p ne) (h.others u ne);
}

in_call : (s : Lock) (t : ℕ) (p : Place) → busy p ≡ true → s.place t ≡ p → busy (s.place t) ≡ true
in_call s t p b e = rw e b

taken :
    (s : Lock) (t : ℕ)
    → IsFree s
    → HeldBy (record s { thread_id = t; place = at s.place t counting }) t
taken s t free = record {
  owner = refl;
  bound = omega (arith, free.no_count);
  count = rw (at_self s.place t counting) (omega (arith, free.no_count, (free.all_idle t).1));
  others = λ u ne. rw (at-ne s.place t u counting ne) (free.all_idle u);
}

released :
    (s : Lock) (t : ℕ)
    → HeldBy s t
    → s.place t ≡ testing
    → s.lck_count ≡ 0
    → IsFree (record s { thread_id = 0; place = at s.place t outside })
released s t h p c = record {
  no_owner = refl;
  no_count = c;
  all_idle = λ u. elim (Bool-cases (u == t)) [
    | inl same ↦
        rw ((==_iff u t).0 same, at_self s.place t outside)
          (refl, omega (arith, c, h.count, ap extra p))
    | inr other ↦
        rw (at-ne s.place t u outside (λ e. ground (arith, other, e)))
          (h.others u (λ e. ground (arith, other, e)))
  ];
}

owned :
    (s : Lock) (t : ℕ) (p : Place) → s.place t ≡ p → HeldBy s t → s.lck_count ≡ s.held t + extra p
owned s t p e h = h.count ∙ ap (λ q. s.held t + extra q) e

Step-Inv : (t : ℕ) {s s' : Lock} → t ≢ 0 → Step t s s' → Inv s → Inv s'
Step-Inv t nz (own s p e) v =
    let h = held-owner s t nz e v in
    inr (t, nz, placed s t s.lck_count counting h h.bound (owned s t outside p h))
Step-Inv t nz (take_free s p e) (inl free) = inr (t, nz, taken s t free)
Step-Inv t nz (take_free s p e) (inr (o, oz, h)) = absurd (oz (sym h.owner ∙ e))
Step-Inv t nz (count_up s p few) v =
    let h = held-busy s t (in_call s t counting refl p) v in
    inr (
      t,
      nz,
      moved s t ((s.lck_count + 1) % 2 ^ 32) (s.held t + 1) outside h (omega arith)
          (omega (arith, few, owned s t counting p h)),
    )
Step-Inv t nz (start_unlock s p k e) v =
    let h = held-owner s t nz e v in
    inr (
      t,
      nz,
      moved s t s.lck_count (s.held t - 1) leaving h h.bound
          (omega (arith, k, owned s t outside p h)),
    )
Step-Inv t nz (count_down s p) v =
    let h = held-busy s t (in_call s t leaving refl p) v in
    inr (
      t,
      nz,
      placed s t ((s.lck_count + 2 ^ 32 - 1) % 2 ^ 32) testing h (omega arith)
          (omega (arith, h.bound, owned s t leaving p h)),
    )
Step-Inv t nz (still_held s p c) v =
    let h = held-busy s t (in_call s t testing refl p) v in
    inr (t, nz, placed s t s.lck_count outside h h.bound (owned s t testing p h))
Step-Inv t nz (release s p c e) v =
    inl (released s t (held-busy s t (in_call s t testing refl p) v) p c)

Steps-Inv : {s s' : Lock} → Steps s s' → Inv s → Inv s'
Steps-Inv (done s) v = v
Steps-Inv (more s s' s'' t nz before step) v = Step-Inv t nz step (Steps-Inv before v)

unlocked-Inv : Inv unlocked
unlocked-Inv = inl (record { no_owner = refl; no_count = refl; all_idle = λ u. (refl, refl) })

holder : (s : Lock) (t : ℕ) → s.held t ≢ 0 → Inv s → HeldBy s t
holder s t k (inl free) = absurd (k (free.all_idle t).1)
holder s t k (inr (o, nz, h)) = elim (Bool-cases (t == o)) [
  | inl same ↦ subst (HeldBy s) (sym ((==_iff t o).0 same)) h
  | inr other ↦ absurd (k (h.others t (λ e. ground (arith, other, e))).1)
]

-- A lock that starts with the id 0 excludes: whatever steps any threads have taken, two threads that both hold it are one;
-- the owner is then that thread, and the count is the number of times that it holds the lock, one more until an
-- `unlock` has counted down.
pub held-Steps :
    (s : Lock) (t u : ℕ)
    → Steps unlocked s
    → s.held t ≢ 0
    → s.held u ≢ 0
    → (t ≡ u) × (s.thread_id ≡ t) × (s.lck_count ≡ s.held t + extra (s.place t))
held-Steps s t u steps ht hu =
    let h = holder s t ht (Steps-Inv steps unlocked-Inv) in
    let k = holder s u hu (Steps-Inv steps unlocked-Inv) in
    (sym h.owner ∙ k.owner, h.owner, h.count)
