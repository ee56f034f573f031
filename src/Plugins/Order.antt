-- ===== src/Plugins/Order.antt =====
-- The order of the plugins that app/plugin-manager.cpp has loaded.
use recd.Plugins.Links.{
  NotIn, IsChain, walk-Linked, NotIn-append, Distinct, Distinct-append, has_all, load_plugin_lem,
}
use Prim.Native.String.{String}
use mathlib.Core.Path.{subst}
use recd.Common.{
  ℕ, ◌≡◌, ◌<◌, refl, sym, ◌∙◌, true, Option, none, some, List, [], ◌∷◌, ◌++◌, arith, length,
  get_elem?, map, ◌>>=◌, some-eq, append_assoc, append-nil, Option-cases, inl, inr,
}
use recd.Plugins.{
  Interface, Plugins, Library, plugin, load_plugin, load_library, load_all, call_deinit, deinit_all,
}

-- The requests name the plugins at these addresses, one for each.
abbrev pub Asks : (String → Library) → List (String × String) → List ℕ → Type 0
Asks q_library [] [] = Unit {0}
Asks q_library [] (b ∷ bs) = ⊥
Asks q_library (req ∷ reqs) [] = ⊥
Asks q_library (req ∷ reqs) (b ∷ bs) = (q_library req.0 ≡ plugin b) × Asks q_library reqs bs

abbrev pub AllHave : List Interface → List ℕ → Type 0
AllHave is [] = Unit {0}
AllHave is (b ∷ bs) = (has_all is b ≡ some true) × AllHave is bs

AllHave-eq :
    (is js : List Interface) (bs : List ℕ)
    → ((a : ℕ) → has_all js a ≡ has_all is a)
    → AllHave is bs
    → AllHave js bs
AllHave-eq is js [] f h = tt
AllHave-eq is js (b ∷ bs) f h = (f b ∙ h.0, AllHave-eq is js bs f h.1)

-- No address of the first list is in the second.
abbrev pub Apart : List ℕ → List ℕ → Type 0
Apart us [] = Unit {0}
Apart us (b ∷ bs) = NotIn b us × Apart us bs

pub Apart-nil : (cs : List ℕ) → Apart [] cs
Apart-nil [] = tt
Apart-nil (c ∷ cs) = (tt, Apart-nil cs)

Apart-append : (us bs : List ℕ) (c : ℕ) → Apart us bs → NotIn c bs → Apart (us ++ (c ∷ [])) bs
Apart-append us [] c h n = tt
Apart-append us (b ∷ bs) c h n =
    (NotIn-append b c us h.0 (λ e. n.0 (sym e)), Apart-append us bs c h.1 n.1)

pub load_library-plugin :
    (q_library : String → Library) (s : Plugins) (src name : String) (b : ℕ)
    → q_library src ≡ plugin b
    → load_library q_library s src name ≡ load_plugin s b name
unfolding load_library
load_library-plugin q_library s src name b h = rw (load_library, h) refl

pub load_all_lem :
    (q_library : String → Library) (reqs : List (String × String)) (bs : List ℕ) (s : Plugins)
    (us : List ℕ)
    → IsChain s us
    → Distinct us
    → Distinct bs
    → Apart us bs
    → Asks q_library reqs bs
    → AllHave s.interfaces bs
    → (s' : Plugins) × (load_all q_library s reqs ≡ some s') × IsChain s' (us ++ bs)
unfolding load_all
load_all_lem q_library [] [] s us c d e n q h = (s, refl, subst (IsChain s) (sym (append-nil us)) c)
load_all_lem q_library [] (b ∷ bs) s us c d e n q h = absurd q
load_all_lem q_library (req ∷ reqs) [] s us c d e n q h = absurd q
load_all_lem q_library ((src, name) ∷ reqs) (b ∷ bs) s us c d e n q h =
    let (ib, g, k) = object in
    let (s1, e1, c1, f1) = load_plugin_lem s us b name ib c d n.0 g k in
    let (s2, e2, c2) =
      load_all_lem q_library reqs bs s1 (us ++ (b ∷ [])) c1 (Distinct-append us b d n.0) e.1
        (Apart-append us bs b n.1 e.0) q.1 (AllHave-eq s.interfaces s1.interfaces bs f1 h.1) in
    (
      s2,
      rw (load_library-plugin q_library s src name b q.0, e1) e2,
      subst (IsChain s2) (append_assoc us (b ∷ []) bs) c2,
    )
  where
    object : (ib : Interface) × (get_elem? s.interfaces b ≡ some ib) × (ib.complete ≡ true)
    object = elim (Option-cases (get_elem? s.interfaces b)) [
      | inl missing ↦ absurd (ground (arith, missing, h.0))
      | inr (ib, g) ↦ (
        ib,
        g,
        some-eq
            (subst (λ (o : Option Interface). (o >>= λ it. some it.complete) ≡ some true) g h.0),
      )
    ]

-- No plugin is loaded yet.
pub record IsBare (s : Plugins) : Type 0 where
  pub no_head : s.head ≡ none
  pub no_tail : s.tail ≡ none

-- Plugins that are loaded from libraries of their own, each with all its functions, make a chain in the order of
-- the configuration; the application stops them in the same order, each once.
pub walk-load_all :
    (q_library : String → Library) (reqs : List (String × String)) (bs : List ℕ) (s : Plugins)
    (fuel : ℕ)
    → IsBare s
    → Distinct bs
    → Asks q_library reqs bs
    → AllHave s.interfaces bs
    → length bs < fuel
    → (s' : Plugins) × (load_all q_library s reqs ≡ some s')
      × IsChain s' bs
      × (deinit_all fuel s' ≡ some (map call_deinit bs))
unfolding deinit_all
walk-load_all q_library reqs bs s fuel bare d q h fueled =
    let (s', e, c) =
      load_all_lem q_library reqs bs s [] (record { linked = bare.no_head; at_end = bare.no_tail })
        tt d (Apart-nil bs) q h in
    (s', e, c, rw (walk-Linked bs fuel s' s'.head c.linked fueled) refl)
