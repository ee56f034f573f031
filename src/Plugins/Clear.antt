-- ===== src/Plugins/Clear.antt =====
-- `InterfaceList::clear` of app/defs.cpp, which the list's destructor runs when the program exits.
use recd.Common.{
  ℕ, zero, suc, ◌≡◌, ◌<◌, refl, Bool, true, false, ◌||◌, ◌==◌, Option, none, some, List, [], ◌∷◌,
  map, length, get_elem?, if◌then◌else◌, ◌>>=◌, arith,
}
use recd.Plugins.{Interface, Plugins, Call, call_deinit}
use recd.Plugins.Links.{Linked, NotIn, Distinct, IsChain}

-- Whether an address is one of these.
abbrev pub is_among : ℕ → List ℕ → Bool
is_among a [] = false
is_among a (b ∷ bs) = (b == a) || is_among a bs

-- The loop on fuel, with what has been deleted so far: the calls, and what it deletes. `none` is the use of an object that
-- has been deleted. Only objects with a `deinit` have been put.
unfoldable pub clear_from : ℕ → List Interface → Option ℕ → List ℕ → Option (List Call × List ℕ)
clear_from zero is head freed = none
clear_from (suc fuel) is none freed = some ([], [])
clear_from (suc fuel) is (some a) freed =
    let go_on = get_elem? is a >>= λ it.
    clear_from fuel is it.next_plugin (a ∷ freed) >>= λ (calls, deleted).
    some (call_deinit a ∷ calls, a ∷ deleted) in
    if is_among a freed then none else go_on

unfoldable pub clear : ℕ → Plugins → Option (List Call × List ℕ)
clear fuel s = clear_from fuel s.interfaces s.head []

-- None of these objects has been deleted.
abbrev AllLeft : List ℕ → List ℕ → Type 0
AllLeft freed [] = Unit {0}
AllLeft freed (a ∷ us) = (is_among a freed ≡ false) × AllLeft freed us

AllLeft-cons : (a : ℕ) (freed us : List ℕ) → NotIn a us → AllLeft freed us → AllLeft (a ∷ freed) us
AllLeft-cons a freed [] n v = tt
AllLeft-cons a freed (u ∷ us) n v = (ground (arith, n.0, v.0), AllLeft-cons a freed us n.1 v.1)

AllLeft-nil : (us : List ℕ) → AllLeft [] us
AllLeft-nil [] = tt
AllLeft-nil (u ∷ us) = (refl, AllLeft-nil us)

clear_from-Linked :
    (us : List ℕ) (fuel : ℕ) (is : List Interface) (head : Option ℕ) (freed : List ℕ)
    → Linked is head us
    → Distinct us
    → AllLeft freed us
    → length us < fuel
    → clear_from fuel is head freed ≡ some (map call_deinit us, us)
unfolding clear_from
clear_from-Linked us zero is head freed l d v h = absurd (omega (arith, h))
clear_from-Linked [] (suc fuel) is head freed l d v h = rw l refl
clear_from-Linked (a ∷ us) (suc fuel) is head freed l d v h =
    rw
      (
        l.0,
        l.2,
        v.0,
        clear_from-Linked us fuel is l.1.next_plugin (a ∷ freed) l.3 d.1
            (AllLeft-cons a freed us d.0 v.1) (omega arith),
      )
      refl

-- A chain in which each plugin is once: `deinit` is called on every plugin in the order of the chain, and every plugin is
-- deleted after its call, though the objects are static ones.
pub clear-IsChain :
    (us : List ℕ) (fuel : ℕ) (s : Plugins)
    → IsChain s us
    → Distinct us
    → length us < fuel
    → clear fuel s ≡ some (map call_deinit us, us)
unfolding clear
clear-IsChain us fuel s c d h =
    clear_from-Linked us fuel s.interfaces s.head [] c.linked d (AllLeft-nil us) h

-- A plugin behind itself is used after it has been deleted, however much fuel there is.
pub clear_loop :
    (fuel : ℕ) (s : Plugins) (b : ℕ) (it : Interface)
    → s.head ≡ some b
    → get_elem? s.interfaces b ≡ some it
    → it.next_plugin ≡ some b
    → clear fuel s ≡ none
unfolding clear clear_from
clear_loop zero s b it h g n = refl
clear_loop (suc zero) s b it h g n = rw (h, g) refl
clear_loop (suc (suc fuel)) s b it h g n =
    let same : (b == b) ≡ true = ground arith in rw (h, g, n, same) refl
