-- ===== src/Common/Maps.antt =====
-- Functions on numbers that are changed at one place.
use Prim.Native.Nat.{ℕ}
use mathlib.Core.Path.{◌≡◌, sym, ◌∙◌}
use mathlib.Core.Logic.{◌≢◌, ◌⊎◌, inl, inr}
use native.Mathlib.Omega.{arith}
use recd.Common.Tests.{◌==◌, if◌then◌else◌, if-true, if-false, Bool-cases, ==_iff}

abbrev pub at {ℓ} : {A : Type ℓ} → (ℕ → A) → ℕ → A → ℕ → A
at f t v u = if u == t then v else f u

pub at_self {ℓ} : {A : Type ℓ} (f : ℕ → A) (t : ℕ) (v : A) → at f t v t ≡ v
at_self f t v = if-true {b = t == t} _ _ (ground arith)

pub at-ne {ℓ} : {A : Type ℓ} (f : ℕ → A) (t u : ℕ) (v : A) → u ≢ t → at f t v u ≡ f u
at-ne f t u v h = if-false {b = u == t} _ _ (ground arith)

-- Where a value of the changed function comes from.
pub at-cases {ℓ} :
    {A : Type ℓ} (f : ℕ → A) (t u : ℕ) {v w : A}
    → at f t v u ≡ w
    → ((u ≡ t) × (v ≡ w)) ⊎ ((u ≢ t) × (f u ≡ w))
at-cases f t u {v = v} e = elim (Bool-cases (u == t)) [
  | inl same ↦ inl ((==_iff u t).0 same, sym (if-true {b = u == t} v (f u) same) ∙ e)
  | inr other ↦ inr (λ k. ground (arith, other, k), sym (if-false {b = u == t} v (f u) other) ∙ e)
]

-- The changed function at any place.
pub at-at {ℓ} :
    {A : Type ℓ} (f : ℕ → A) (t u : ℕ) (v : A)
    → ((u ≡ t) × (at f t v u ≡ v)) ⊎ ((u ≢ t) × (at f t v u ≡ f u))
at-at f t u v = elim (Bool-cases (u == t)) [
  | inl same ↦ inl ((==_iff u t).0 same, if-true {b = u == t} v (f u) same)
  | inr other ↦ inr (λ k. ground (arith, other, k), if-false {b = u == t} v (f u) other)
]
