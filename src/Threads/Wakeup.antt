-- ===== src/Threads/Wakeup.antt =====
-- What the semaphore of utils/thread.cpp keeps, and when a sleeping thread is woken.
use mathlib.Core.Path.{subst}
use recd.Common.{at, at_self, at-ne, at-cases, ℕ, ◌+◌, ◌≡◌, ◌≢◌, inl, inr, refl, sym, ◌∙◌, arith}
use recd.Threads.{
  Place, outside, blocked, woken, signalling, Semaphore, new_semaphore, Step, post_takes,
  post_blocks, woken_takes, woken_blocks, wait_first, wait_more, signal_wakes, signal_wakes_none,
  wakes_up, Steps, done, more, StepsOf, done_of, more_of,
}

count-Step :
    (t : ℕ) {s s' : Semaphore}
    → Step t s s'
    → s.taken + s.count ≡ s.given
    → s'.taken + s'.count ≡ s'.given
count-Step t (post_takes s p c) e = omega (arith, c, e)
count-Step t (post_blocks s p c) e = e
count-Step t (woken_takes s p c) e = omega (arith, c, e)
count-Step t (woken_blocks s p c) e = e
count-Step t (wait_first s p c) e = omega (arith, c, e)
count-Step t (wait_more s p c few) e = omega (arith, e)
count-Step t (signal_wakes s u p b) e = e
count-Step t (signal_wakes_none s p b) e = e
count-Step t (wakes_up s p) e = e

-- Whatever steps any threads take, the count is the number of calls of `wait` less the number of calls of `post`
-- that have come back; so no `post` comes back that no `wait` has allowed.
pub count-Steps : (s : Semaphore) → Steps new_semaphore s → s.taken + s.count ≡ s.given
count-Steps s (done _) = refl
count-Steps s (more _ s' _ t before step) = count-Step t step (count-Steps s' before)

-- Only `c` sleeps, and where it sleeps though the count is not 0, someone is about to signal.
record IsAwaited (c : ℕ) (s : Semaphore) : Type 0 where
  pub only : (u : ℕ) → s.place u ≡ blocked → u ≡ c
  pub told : s.place c ≡ blocked → s.count ≢ 0 → (t : ℕ) × (s.place t ≡ signalling)

-- The place of `t` changes.
only-at :
    (c t : ℕ) (s : Semaphore) (p : Place)
    → IsAwaited c s
    → (at s.place t p t ≡ blocked → t ≡ c)
    → (u : ℕ) → at s.place t p u ≡ blocked
    → u ≡ c
only-at c t s p v own u b = elim (at-cases s.place t u b) [
  | inl (same, e) ↦ same ∙ own (at_self s.place t p ∙ e)
  | inr (other, e) ↦ v.only u e
]

-- Who was about to signal still is, where the place of another thread changes.
told-at :
    (c t : ℕ) (s : Semaphore) (p : Place)
    → IsAwaited c s
    → s.place t ≢ signalling
    → p ≢ blocked
    → s.count ≢ 0
    → at s.place t p c ≡ blocked
    → (u : ℕ) × (at s.place t p u ≡ signalling)
told-at c t s p v quiet awake n b = elim (at-cases s.place t c b) [
  | inl (same, e) ↦ absurd (awake e)
  | inr (other, e) ↦ still (v.told e n)
]
  where
    still : ((u : ℕ) × (s.place u ≡ signalling)) → (u : ℕ) × (at s.place t p u ≡ signalling)
    still (u, e) =
        (u, at-ne s.place t u p (λ k. quiet (subst (λ w. s.place w ≡ signalling) k e)) ∙ e)

still_blocked :
    (s : Semaphore) (u t w : ℕ)
    → at (at s.place u woken) t outside w ≡ blocked
    → (w ≢ u) × (s.place w ≡ blocked)
still_blocked s u t w e = elim (at-cases (at s.place u woken) t w e) [
  | inl (same, k) ↦ absurd cc
  | inr (other, k) ↦ elim (at-cases s.place u w k) [
    | inl (same, j) ↦ absurd cc
    | inr (differs, j) ↦ (differs, j)
  ]
]

Step-IsAwaited :
    (c t : ℕ) {s s' : Semaphore}
    → Step t s s'
    → (s'.place t ≡ blocked → t ≡ c)
    → IsAwaited c s
    → IsAwaited c s'
Step-IsAwaited c t (post_takes s p n) own v = record { only = v.only; told = λ b m. v.told b n }
Step-IsAwaited c t (post_blocks s p z) own v = record {
  only = only-at c t s blocked v own;
  told = λ b m. absurd (m z);
}
Step-IsAwaited c t (woken_takes s p n) own v = record {
  only = only-at c t s outside v own;
  told = λ b m. told-at c t s outside v (λ k. cc) (λ k. cc) n b;
}
Step-IsAwaited c t (woken_blocks s p z) own v = record {
  only = only-at c t s blocked v own;
  told = λ b m. absurd (m z);
}
Step-IsAwaited c t (wait_first s p z) own v = record {
  only = only-at c t s signalling v own;
  told = λ b m. (t, at_self s.place t signalling);
}
Step-IsAwaited c t (wait_more s p n few) own v = record { only = v.only; told = λ b m. v.told b n }
Step-IsAwaited c t (signal_wakes s u p b) own v = record {
  only = λ w e. v.only w (still_blocked s u t w e).1;
  told = λ e m. absurd ((still_blocked s u t c e).0 (sym (v.only u b)));
}
Step-IsAwaited c t (signal_wakes_none s p nobody) own v = record {
  only = only-at c t s outside v own;
  told = λ b m.
      absurd (elim (at-cases s.place t c b) [ inl (same, e) ↦ cc | inr (other, e) ↦ nobody c e ]);
}
Step-IsAwaited c t (wakes_up s p) own v = record {
  only = only-at c t s woken v own;
  told = λ b m. absurd (elim (at-cases s.place t c b) [
    | inl (same, e) ↦ cc
    | inr (other, e) ↦ other (sym (v.only t p))
  ]);
}

Steps-IsAwaited : (c : ℕ) {s s' : Semaphore} → StepsOf c s s' → IsAwaited c s → IsAwaited c s'
Steps-IsAwaited c (done_of _) v = v
Steps-IsAwaited c (more_of s s' s'' t before step own) v =
    Step-IsAwaited c t step own (Steps-IsAwaited c before v)

new-IsAwaited : (c : ℕ) → IsAwaited c new_semaphore
new-IsAwaited c = record { only = λ u e. absurd cc; told = λ e m. absurd cc }

place-ne : (s : Semaphore) (c t : ℕ) → s.place c ≡ blocked → s.place t ≡ signalling → c ≢ t
place-ne s c t b e = λ k. cc

-- Where only the thread `c` ever sleeps: whatever steps the threads have taken, while `c` sleeps though the count is not 0,
-- there is a thread whose next step wakes it.
pub wakes_sleeper :
    (c : ℕ) (s : Semaphore)
    → StepsOf c new_semaphore s
    → s.place c ≡ blocked
    → s.count ≢ 0
    → (t : ℕ) × (s' : Semaphore) × (s.place t ≡ signalling) × Step t s s' × (s'.place c ≡ woken)
wakes_sleeper c s steps b n = wake ((Steps-IsAwaited c steps (new-IsAwaited c)).told b n)
  where
    wake :
        ((t : ℕ) × (s.place t ≡ signalling))
        → (t : ℕ) × (s' : Semaphore) × (s.place t ≡ signalling) × Step t s s' × (s'.place c ≡ woken)
    wake (t, e) = (
      t,
      record s { place = at (at s.place c woken) t outside },
      e,
      signal_wakes s c e b,
      at-ne (at s.place c woken) t c outside (place-ne s c t b e) ∙ at_self s.place c woken,
    )
