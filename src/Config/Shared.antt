-- ===== src/Config/Shared.antt =====
-- `getAttribPairFromTag` of utils/recorder-config.cpp with what it returns: a reference, to a pair of the tag or to the
-- static object `none` that all missing attributes share. `const_cast` makes both writable.
use Prim.Native.String.{String}
use text.Mathlib.Text.{◌==◌ as str_eq}
use recd.Common.{
  ℕ, suc, ◌≡◌, refl, sym, ap, ◌∙◌, Option, none, some, [], ◌∷◌, if◌then◌else◌, get_elem?, set,
  ◌>>=◌, arith, Option-cases, some-eq,
}
use mathlib.Core.Option
use recd.Config.{MPair, PairList, Tags, value, get_tag_pairs, find_attrib, get_attrib_pair_from_tag}
use recd.Config.Load.{value-get_tag_pairs}

pub record Store : Type 0 where
  pub tags : Tags
  pub none_pair : MPair

-- The position of a pair in the list of a tag, or the static object.
pub data PairRef : Type 0 where
  in_tag : String → ℕ → PairRef
  none_object : PairRef

-- Before anything is written to it.
abbrev pub empty_pair : MPair
empty_pair = record { type1 = ""; type2 = "" }

unfoldable pub find_pos : PairList → String → Option ℕ
find_pos [] attrib = none
find_pos (p ∷ ps) attrib =
    if str_eq p.type1 attrib then some 0 else Option.map suc (find_pos ps attrib)

unfoldable pub pair_ref : String → Option ℕ → PairRef
pair_ref tag none = none_object
pair_ref tag (some i) = in_tag tag i

unfoldable pub get_attrib_ref : Store → String → String → PairRef × Store
get_attrib_ref st tag attrib =
    let (ps, m) = get_tag_pairs st.tags tag in
    (pair_ref tag (find_pos ps attrib), record st { tags = m })

-- What a reference refers to now.
unfoldable pub deref : Store → PairRef → Option MPair
deref st none_object = some st.none_pair
deref st (in_tag tag i) = get_elem? (value st.tags tag) i

unfoldable pub set_value : Tags → String → PairList → Tags
set_value [] tag ps = []
set_value ((t, qs) ∷ m) tag ps = if str_eq t tag then (t, ps) ∷ m else (t, qs) ∷ set_value m tag ps

-- `ref->m_type2 = text`
unfoldable pub set_type2 : Store → PairRef → String → Option Store
set_type2 st none_object text =
    some (record st { none_pair = record st.none_pair { type2 = text } })
set_type2 st (in_tag tag i) text = get_elem? (value st.tags tag) i >>= λ p. some (record st {
  tags = set_value st.tags tag (set (value st.tags tag) i (record p { type2 = text }));
})

-- A call whose result is read at once.
unfoldable pub look_up : Store → String → String → Option (MPair × Store)
look_up st tag attrib =
    let (ref, st') = get_attrib_ref st tag attrib in deref st' ref >>= λ p. some (p, st')

pub find_attrib-missing :
    (d : MPair) (ps : PairList) (attrib : String)
    → find_pos ps attrib ≡ none
    → find_attrib d ps attrib ≡ d
unfolding find_attrib find_pos
find_attrib-missing d [] attrib h = refl
find_attrib-missing d (p ∷ ps) attrib h = ground (arith, find_attrib-missing d ps attrib)

-- Where the reference into a list leads.
read_ref : PairList → MPair → Option ℕ → Option MPair
read_ref ps d none = some d
read_ref ps d (some i) = get_elem? ps i

read_ref-find_pos :
    (d : MPair) (ps : PairList) (attrib : String)
    → read_ref ps d (find_pos ps attrib) ≡ some (find_attrib d ps attrib)
unfolding read_ref find_pos find_attrib
read_ref-find_pos d [] attrib = refl
read_ref-find_pos d (p ∷ ps) attrib =
    ground (arith, read_ref-find_pos d ps attrib, Option-cases (find_pos ps attrib))

deref-pair_ref :
    (st : Store) (tag : String) (o : Option ℕ)
    → deref st (pair_ref tag o) ≡ read_ref (value st.tags tag) st.none_pair o
unfolding deref pair_ref read_ref
deref-pair_ref st tag none = refl
deref-pair_ref st tag (some i) = refl

-- A reference that is read later, when the tag's list is still the same, leads to the first pair of the name, and else to
-- what the static object then holds.
pub deref-get_attrib_ref :
    (st st' : Store) (tag attrib : String)
    → value st'.tags tag ≡ value st.tags tag
    → deref st' (get_attrib_ref st tag attrib).0
      ≡ some (find_attrib st'.none_pair (value st.tags tag) attrib)
unfolding get_attrib_ref get_tag_pairs
deref-get_attrib_ref st st' tag attrib same =
    deref-pair_ref st' tag (find_pos (value st.tags tag) attrib)
    ∙ ap (λ ps. read_ref ps st'.none_pair (find_pos (value st.tags tag) attrib)) same
    ∙ read_ref-find_pos st'.none_pair (value st.tags tag) attrib

-- The lists of the tags stay as they are.
pub value-get_attrib_ref :
    (st : Store) (tag attrib asked : String)
    → value (get_attrib_ref st tag attrib).1.tags asked ≡ value st.tags asked
unfolding get_attrib_ref
value-get_attrib_ref st tag attrib asked = value-get_tag_pairs st.tags asked tag

pub none_pair-get_attrib_ref :
    (st : Store) (tag attrib : String) → (get_attrib_ref st tag attrib).1.none_pair ≡ st.none_pair
unfolding get_attrib_ref
none_pair-get_attrib_ref st tag attrib = refl

pub get_attrib_ref-missing :
    (st : Store) (tag attrib : String)
    → find_pos (value st.tags tag) attrib ≡ none
    → (get_attrib_ref st tag attrib).0 ≡ none_object
unfolding get_attrib_ref get_tag_pairs pair_ref
get_attrib_ref-missing st tag attrib h = ap (pair_ref tag) h

-- An attribute that is there is found, whatever the static object holds.
pub find_attrib-found :
    (d : MPair) (ps : PairList) (attrib : String) (i : ℕ) (p : MPair)
    → find_pos ps attrib ≡ some i
    → get_elem? ps i ≡ some p
    → find_attrib d ps attrib ≡ p
unfolding read_ref
find_attrib-found d ps attrib i p e f =
    some-eq (sym (read_ref-find_pos d ps attrib) ∙ ap (read_ref ps d) e ∙ f)

-- A call is answered by the first pair of the name, and else by what the static object holds.
pub look_up_lem :
    (st : Store) (tag attrib : String)
    → look_up st tag attrib
      ≡ some (find_attrib st.none_pair (value st.tags tag) attrib, (get_attrib_ref st tag attrib).1)
unfolding look_up
look_up_lem st tag attrib =
    rw
      (deref-get_attrib_ref st (get_attrib_ref st tag attrib).1 tag attrib
        (value-get_attrib_ref st tag attrib tag))
      (ap (λ d. some (find_attrib d (value st.tags tag) attrib, (get_attrib_ref st tag attrib).1))
        (none_pair-get_attrib_ref st tag attrib))

-- The references answer as the lookup that is given what the static object holds.
pub look_up-get_attrib :
    (none_pair : MPair) (m : Tags) (tag attrib : String)
    → look_up (record { tags = m; none_pair = none_pair }) tag attrib
      ≡ some (
        (get_attrib_pair_from_tag none_pair m tag attrib).0,
        record {
          tags = (get_attrib_pair_from_tag none_pair m tag attrib).1;
          none_pair = none_pair;
        },
      )
unfolding get_attrib_ref get_tag_pairs get_attrib_pair_from_tag
look_up-get_attrib none_pair m tag attrib =
    look_up_lem (record { tags = m; none_pair = none_pair }) tag attrib
