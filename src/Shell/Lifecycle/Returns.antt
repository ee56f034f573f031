-- ===== src/Shell/Lifecycle/Returns.antt =====
-- The loops of app/sapplication.cpp over the plugins where every plugin's function returns.
use recd.Common.{
  ℕ, zero, suc, ◌≡◌, ◌<◌, refl, sym, ap, true, Option, some, List, [], ◌∷◌, length, map, arith,
}
use recd.Config.Shared.{Store}
use recd.Plugins.{Plugins, Call, Ending, returns, call_init, call_each, init_all_plugins}
use recd.Plugins.Links.{IsChain, Linked}

-- The functions of the plugins at these addresses, one after the other, all return, and lead from the first configuration to
-- the second.
abbrev pub AllReturn : (ℕ → Store → Option Ending) → List ℕ → Store → Store → Type 0
AllReturn f [] st st' = st ≡ st'
AllReturn f (a ∷ us) st st' = (st1 : Store) × (f a st ≡ some (returns st1)) × AllReturn f us st1 st'

pub call_each-Linked :
    (f : ℕ → Store → Option Ending) (call : ℕ → Call) (us : List ℕ) (fuel : ℕ) (s : Plugins)
    (p : Option ℕ) (st st' : Store)
    → Linked s.interfaces p us
    → length us < fuel
    → AllReturn f us st st'
    → call_each f call fuel s p st ≡ some (map call us, returns st')
unfolding call_each
call_each-Linked f call us zero s p st st' l h r = absurd (omega (arith, h))
call_each-Linked f call [] (suc fuel) s p st st' l h r = rw l (ap (λ k. some ([], returns k)) r)
call_each-Linked f call (a ∷ us) (suc fuel) s p st st' l h r =
    rw
      (
        l.0,
        l.2,
        r.1,
        call_each-Linked f call us fuel s l.1.next_plugin r.0 st' l.3 (omega arith) r.2,
      )
      refl

pub init_all_plugins-IsChain :
    (f : ℕ → Store → Option Ending) (us : List ℕ) (fuel : ℕ) (s : Plugins) (st st' : Store)
    → IsChain s us
    → length us < fuel
    → AllReturn f us st st'
    → init_all_plugins f fuel s true st ≡ some (map call_init us, true, returns st')
unfolding init_all_plugins
init_all_plugins-IsChain f [] fuel s st st' c h r =
    rw c.linked (ap (λ k. some ([], true, returns k)) r)
init_all_plugins-IsChain f (u ∷ us) fuel s st st' c h r =
    rw
      (
        c.linked.0,
        sym c.linked.0,
        call_each-Linked f call_init (u ∷ us) fuel s s.head st st' c.linked h r,
      )
      refl
