-- ===== src/Common/Loops.antt =====
-- Counted loops whose body may fail.
use Prim.Native.Nat.{ℕ, zero, suc, ◌+◌, ◌<◌}
use mathlib.Core.Path.{◌≡◌, refl}
use mathlib.Core.Option.{Option, some}
use mathlib.Core.List.{List, [], ◌∷◌}
use native.Mathlib.Omega.{arith}
use recd.Common.Tests.{◌>>=◌}
use recd.Common.Lists.{tabulate}

-- `for (j = i; j < i + n; ++j) out.append(f(j));`
unfoldable pub collect {ℓ} : {A : Type ℓ} → ℕ → ℕ → (ℕ → Option A) → Option (List A)
collect zero i f = some []
collect (suc n) i f = f i >>= λ x. collect n (i + 1) f >>= λ xs. some (x ∷ xs)

-- Where the body succeeds on the whole range, so does the loop.
pub collect-tabulate {ℓ} :
    {A : Type ℓ} (n i : ℕ) (f : ℕ → Option A) (g : ℕ → A)
    → ((j : ℕ) → j < i + n → f j ≡ some (g j))
    → collect n i f ≡ some (tabulate n i g)
unfolding collect
collect-tabulate zero i f g h = refl
collect-tabulate (suc n) i f g h =
    rw (h i (omega arith), collect-tabulate n (i + 1) f g (λ j p. h j (omega arith)))
