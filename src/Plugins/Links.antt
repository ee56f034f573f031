-- ===== src/Plugins/Links.antt =====
-- The links of the chain of app/defs.cpp, and what loading one more plugin does to them.
use Prim.Native.String.{String}
use recd.Common.{
  ℕ, zero, suc, ◌≡◌, ◌≢◌, ◌<◌, refl, sym, ap, ◌∙◌, Bool, true, Option, none, some, List, [], ◌∷◌,
  ◌++◌, arith, length, get_elem?, set, ◌>>=◌, some-eq,
}
use recd.Plugins.{Interface, Plugins, update, put, load_plugin, walk}

-- The links from a pointer on lead over these objects to a null pointer.
abbrev pub Linked : List Interface → Option ℕ → List ℕ → Type 0
Linked is p [] = p ≡ none
Linked is p (a ∷ us) =
    (p ≡ some a) × (it : Interface) × (get_elem? is a ≡ some it) × Linked is it.next_plugin us

abbrev pub NotIn : ℕ → List ℕ → Type 0
NotIn b [] = Unit {0}
NotIn b (a ∷ us) = (a ≢ b) × NotIn b us

abbrev pub last : List ℕ → Option ℕ
last [] = none
last (a ∷ []) = some a
last (a ∷ b ∷ us) = last (b ∷ us)

-- The chain has these objects, each once, in this order; every interface is complete.
pub record IsChain (s : Plugins) (us : List ℕ) : Type 0 where
  pub linked : Linked s.interfaces s.head us
  pub at_end : s.tail ≡ last us

pub walk-Linked :
    (us : List ℕ) (fuel : ℕ) (s : Plugins) (p : Option ℕ)
    → Linked s.interfaces p us
    → length us < fuel
    → walk fuel s p ≡ some us
unfolding walk
walk-Linked us zero s p v h = absurd (omega (arith, h))
walk-Linked [] (suc fuel) s p v h = rw v refl
walk-Linked (a ∷ us) (suc fuel) s p v h =
    rw (v.0, v.2, walk-Linked us fuel s v.1.next_plugin v.3 (omega arith)) refl

pub get_elem?-set_self :
    (is : List Interface) (i : ℕ) (it v : Interface)
    → get_elem? is i ≡ some it
    → get_elem? (set is i v) i ≡ some v
get_elem?-set_self [] i it v h = ground (arith, h)
get_elem?-set_self (x ∷ is) zero it v h = refl
get_elem?-set_self (x ∷ is) (suc i) it v h = get_elem?-set_self is i it v h

get_elem?-set_ne :
    (is : List Interface) (i j : ℕ) (v : Interface)
    → j ≢ i
    → get_elem? (set is i v) j ≡ get_elem? is j
get_elem?-set_ne [] i j v h = refl
get_elem?-set_ne (x ∷ is) zero zero v h = absurd (h refl)
get_elem?-set_ne (x ∷ is) zero (suc j) v h = refl
get_elem?-set_ne (x ∷ is) (suc i) zero v h = refl
get_elem?-set_ne (x ∷ is) (suc i) (suc j) v h = get_elem?-set_ne is i j v (λ e. h (ap suc e))

Linked-set :
    (is : List Interface) (p : Option ℕ) (us : List ℕ) (b : ℕ) (v : Interface)
    → NotIn b us
    → Linked is p us
    → Linked (set is b v) p us
Linked-set is p [] b v n h = h
Linked-set is p (a ∷ us) b v n h =
    (h.0, h.1, get_elem?-set_ne is b a v n.0 ∙ h.2, Linked-set is h.1.next_plugin us b v n.1 h.3)

-- Each object once.
abbrev pub Distinct : List ℕ → Type 0
Distinct [] = Unit {0}
Distinct (a ∷ us) = NotIn a us × Distinct us

abbrev pub with_next : Option ℕ → Interface → Interface
with_next p it = record it { next_plugin = p }

NotIn-last : (b u : ℕ) (us : List ℕ) (t : ℕ) → NotIn b (u ∷ us) → last (u ∷ us) ≡ some t → t ≢ b
NotIn-last b u [] t n l = λ e. n.0 (some-eq l ∙ e)
NotIn-last b u (u' ∷ us) t n l = NotIn-last b u' us t n.1 l

last-append : (us : List ℕ) (b : ℕ) → last (us ++ (b ∷ [])) ≡ some b
last-append [] b = refl
last-append (u ∷ []) b = refl
last-append (u ∷ u' ∷ us) b = last-append (u' ∷ us) b

pub NotIn-append : (b c : ℕ) (us : List ℕ) → NotIn b us → c ≢ b → NotIn b (us ++ (c ∷ []))
NotIn-append b c [] n h = (h, tt)
NotIn-append b c (u ∷ us) n h = (n.0, NotIn-append b c us n.1 h)

pub Distinct-append : (us : List ℕ) (b : ℕ) → Distinct us → NotIn b us → Distinct (us ++ (b ∷ []))
Distinct-append [] b d n = (tt, tt)
Distinct-append (u ∷ us) b d n =
    (NotIn-append u b us d.0 (λ e. n.0 (sym e)), Distinct-append us b d.1 n.1)

last_found :
    (is : List Interface) (p : Option ℕ) (u : ℕ) (us : List ℕ)
    → Linked is p (u ∷ us)
    → (t : ℕ) × (it : Interface) × (last (u ∷ us) ≡ some t) × (get_elem? is t ≡ some it)
last_found is p u [] h = (u, h.1, refl, h.2)
last_found is p u (u' ∷ us) h = last_found is h.1.next_plugin u' us h.3

-- The last object linked to another one, whose own link is null.
Linked-extend :
    (is : List Interface) (p : Option ℕ) (u : ℕ) (us : List ℕ) (t b : ℕ) (it ib : Interface)
    → Distinct (u ∷ us)
    → NotIn b (u ∷ us)
    → last (u ∷ us) ≡ some t
    → get_elem? is t ≡ some it
    → get_elem? is b ≡ some ib
    → ib.next_plugin ≡ none
    → Linked is p (u ∷ us)
    → Linked (set is t (with_next (some b) it)) p ((u ∷ us) ++ (b ∷ []))
Linked-extend is p u [] t b it ib d n l gt gb nb h = (
  h.0,
  with_next (some b) it,
  rw (some-eq l) (get_elem?-set_self is t it (with_next (some b) it) gt),
  (
    refl,
    ib,
    get_elem?-set_ne is t b (with_next (some b) it) (λ e. n.0 (some-eq l ∙ sym e)) ∙ gb,
    nb,
  ),
)
Linked-extend is p u (u' ∷ us) t b it ib d n l gt gb nb h = (
  h.0,
  h.1,
  get_elem?-set_ne is t u (with_next (some b) it) (λ e. NotIn-last u u' us t d.0 l (sym e)) ∙ h.2,
  Linked-extend is h.1.next_plugin u' us t b it ib d.1 n.1 l gt gb nb h.3,
)

-- Whether there is an object at an address, and whether it has all its functions.
abbrev pub has_all : List Interface → ℕ → Option Bool
has_all is a = get_elem? is a >>= λ it. some it.complete

has_all-set :
    (is : List Interface) (i : ℕ) (it v : Interface)
    → get_elem? is i ≡ some it
    → v.complete ≡ it.complete
    → (a : ℕ) → has_all (set is i v) a ≡ has_all is a
has_all-set [] i it v g e a = refl
has_all-set (x ∷ is) zero it v g e zero =
    ap some (e ∙ ap (λ (j : Interface). j.complete) (sym (some-eq g)))
has_all-set (x ∷ is) zero it v g e (suc a) = refl
has_all-set (x ∷ is) (suc i) it v g e zero = refl
has_all-set (x ∷ is) (suc i) it v g e (suc a) = has_all-set is i it v g e a

put_lem :
    (s : Plugins) (us : List ℕ) (b : ℕ) (ib : Interface)
    → IsChain s us
    → Distinct us
    → NotIn b us
    → get_elem? s.interfaces b ≡ some ib
    → ib.next_plugin ≡ none
    → (s' : Plugins) × (put s b ≡ some s')
      × IsChain s' (us ++ (b ∷ []))
      × ((a : ℕ) → has_all s'.interfaces a ≡ has_all s.interfaces a)
unfolding put update
put_lem s [] b ib c d n g k = (
  record s { head = some b; tail = some b },
  rw c.linked refl,
  record { linked = (refl, ib, g, k); at_end = refl },
  λ a. refl,
)
put_lem s (u ∷ us) b ib c d n g k =
    let (t, it, l, gt) = last_found s.interfaces s.head u us c.linked in
    (
      record s { interfaces = set s.interfaces t (with_next (some b) it); tail = some b },
      rw (c.linked.0, c.at_end ∙ l, gt) refl,
      record {
        linked = Linked-extend s.interfaces s.head u us t b it ib d n l gt g k c.linked;
        at_end = sym (last-append (u ∷ us) b);
      },
      has_all-set s.interfaces t it (with_next (some b) it) gt refl,
    )

unfoldable pub named : String → Interface → Interface
named name ib = record (with_next none ib) { name = name }

-- The object of a library when it is put.
unfoldable pub prepared : Plugins → ℕ → String → Interface → Plugins
prepared s b name ib = record s {
  interfaces = set (set s.interfaces b (with_next none ib)) b (named name ib);
}

pub load_plugin-put :
    (s : Plugins) (b : ℕ) (name : String) (ib : Interface)
    → get_elem? s.interfaces b ≡ some ib
    → ib.complete ≡ true
    → load_plugin s b name ≡ (put (prepared s b name ib) b >>= λ s3. some (s3, true))
unfolding load_plugin update prepared named
load_plugin-put s b name ib g k =
    rw (g, get_elem?-set_self s.interfaces b ib (with_next none ib) g, k) refl

-- A further plugin is loaded: its object becomes the last one of the chain.
pub load_plugin_lem :
    (s : Plugins) (us : List ℕ) (b : ℕ) (name : String) (ib : Interface)
    → IsChain s us
    → Distinct us
    → NotIn b us
    → get_elem? s.interfaces b ≡ some ib
    → ib.complete ≡ true
    → (s' : Plugins) × (load_plugin s b name ≡ some (s', true))
      × IsChain s' (us ++ (b ∷ []))
      × ((a : ℕ) → has_all s'.interfaces a ≡ has_all s.interfaces a)
unfolding prepared named
load_plugin_lem s us b name ib c d n g k =
    let (s', e, c', f) = put_lem (prepared s b name ib) us b (named name ib) chain d n found refl in
    (s', load_plugin-put s b name ib g k ∙ rw e refl, c', λ a. f a ∙ flags a)
  where
    unlinked : List Interface
    unlinked = set s.interfaces b (with_next none ib)

    flags : (a : ℕ) → has_all (prepared s b name ib).interfaces a ≡ has_all s.interfaces a
    flags a =
        has_all-set unlinked b (with_next none ib) (named name ib)
          (get_elem?-set_self s.interfaces b ib (with_next none ib) g) refl a
        ∙ has_all-set s.interfaces b ib (with_next none ib) g refl a

    chain : IsChain (prepared s b name ib) us
    chain = record {
      linked =
          Linked-set unlinked s.head us b (named name ib) n
            (Linked-set s.interfaces s.head us b (with_next none ib) n c.linked);
      at_end = c.at_end;
    }

    found : get_elem? (prepared s b name ib).interfaces b ≡ some (named name ib)
    found =
        get_elem?-set_self unlinked b (with_next none ib) (named name ib)
          (get_elem?-set_self s.interfaces b ib (with_next none ib) g)
