-- ===== src/Config/Load.antt =====
-- What the configuration answers after it has been loaded.
use Prim.Native.String.{String}
use text.Mathlib.Text.{◌==◌ as str_eq}
use text.Mathlib.TextEquality.{eq_iff}
use recd.Common.{
  ◌≡◌, refl, sym, ap, ◌∙◌, Bool, false, some, List, [], ◌∷◌, ◌++◌, ◌||◌, if◌then◌else◌, arith,
  append-nil, append_assoc,
}
use recd.Config.{
  MPair, PairList, Element, Tags, value, append, get_tag_pairs, find_attrib, append_all,
  load_elements, fast_load_file, is_known, load_known, load_file, append_entries, load_defaults,
  defaults, get_attrib_pair_from_tag,
}

-- The attributes that a document gives to a tag, in document order.
unfoldable pub attributes_of : String → List Element → PairList
attributes_of tag [] = []
attributes_of tag (e ∷ es) =
    (if str_eq e.name tag then e.attributes else []) ++ attributes_of tag es

value-append :
    (m : Tags) (t tag : String) (p : MPair)
    → value (append m t p) tag ≡ (if str_eq t tag then value m tag ++ (p ∷ []) else value m tag)
unfolding value append
value-append [] t tag p = ground arith
value-append ((s, ps) ∷ m) t tag p =
    ground (arith, eq_iff s t, eq_iff s tag, eq_iff t tag, value-append m t tag p)

value-append_all :
    (m : Tags) (t tag : String) (ps : PairList)
    → value (append_all m t ps) tag ≡ value m tag ++ (if str_eq t tag then ps else [])
unfolding append_all
value-append_all m t tag [] = ground (arith, append-nil (value m tag))
value-append_all m t tag (p ∷ ps) = ground (
  arith,
  value-append_all (append m t p) t tag ps,
  value-append m t tag p,
  append_assoc (value m tag) (p ∷ []) ps,
)

pub value-load_elements :
    (m : Tags) (es : List Element) (tag : String)
    → value (load_elements m es) tag ≡ value m tag ++ attributes_of tag es
unfolding load_elements attributes_of
value-load_elements m [] tag = sym (append-nil (value m tag))
value-load_elements m (e ∷ es) tag =
    value-load_elements (append_all m e.name e.attributes) es tag
    ∙ ap (λ ps. ps ++ attributes_of tag es) (value-append_all m e.name tag e.attributes)
    ∙ append_assoc (value m tag) _ (attributes_of tag es)

value-load_known :
    (m : Tags) (es : List Element) (tag : String)
    → value (load_known m es) tag
      ≡ value m tag ++ (if is_known tag then attributes_of tag es else [])
unfolding load_known attributes_of
value-load_known m [] tag = ground (arith, append-nil (value m tag))
value-load_known m (e ∷ es) tag = ground (
  arith,
  eq_iff e.name tag,
  value-load_known m es tag,
  value-load_known (append_all m e.name e.attributes) es tag,
  value-append_all m e.name tag e.attributes,
  append-nil (value m tag),
  append_assoc (value m tag) e.attributes (attributes_of tag es),
  ap is_known {x = e.name} {y = tag},
)

value_inserted : (m : Tags) (tag asked : String) → value (m ++ ((asked, []) ∷ [])) tag ≡ value m tag
unfolding value
value_inserted [] tag asked = ground (arith, eq_iff asked tag)
value_inserted ((t, ps) ∷ m) tag asked = ground (arith, eq_iff t tag, value_inserted m tag asked)

pub value-get_tag_pairs :
    (m : Tags) (tag asked : String) → value (get_tag_pairs m asked).1 tag ≡ value m tag
unfolding get_tag_pairs
value-get_tag_pairs m tag asked = ground (arith, value_inserted m tag asked)

get_attrib_value :
    (none_pair : MPair) (m : Tags) (tag attrib : String)
    → (get_attrib_pair_from_tag none_pair m tag attrib).0
      ≡ find_attrib none_pair (value m tag) attrib
unfolding get_attrib_pair_from_tag get_tag_pairs
get_attrib_value none_pair m tag attrib = refl

-- After `fastLoadFile` of a file that opens, a question for an attribute of a tag is answered by the first
-- attribute of that name in the elements of that name, in document order, or, where there is none, by what the static
-- object that all missing attributes share holds at that time; nothing of the former tags is left, and no question
-- changes a later answer.
pub get_attrib-fast_load_file :
    (none_pair : MPair) (m : Tags) (fname : String) (es : List Element) (tag attrib asked : String)
    → str_eq fname "" ≡ false
    → let loaded = (fast_load_file m fname (some es)).1 in
      ((get_attrib_pair_from_tag none_pair loaded tag attrib).0
        ≡ find_attrib none_pair (attributes_of tag es) attrib)
      × ((get_attrib_pair_from_tag none_pair (get_tag_pairs loaded asked).1 tag attrib).0
          ≡ find_attrib none_pair (attributes_of tag es) attrib)
unfolding fast_load_file value
get_attrib-fast_load_file none_pair m fname es tag attrib asked h = rw h (
  get_attrib_value none_pair loaded tag attrib
      ∙ ap (λ ps. find_attrib none_pair ps attrib) (value-load_elements [] es tag),
  get_attrib_value none_pair (get_tag_pairs loaded asked).1 tag attrib
      ∙ ap (λ ps. find_attrib none_pair ps attrib)
          (value-get_tag_pairs loaded tag asked ∙ value-load_elements [] es tag),
)
  where
    loaded : Tags
    loaded = load_elements [] es

-- `loadFile` keeps what was there and appends, for the seven tags that it knows, the attributes of
-- their elements in document order; every other tag, `Paths` and `Plugin` among them, stays as it was.
pub get_tag_pairs-load_file :
    (m : Tags) (es : List Element) (tag : String)
    → (get_tag_pairs (load_file m false (some es)).1 tag).0
      ≡ value m tag ++ (if is_known tag then attributes_of tag es else [])
unfolding load_file get_tag_pairs
get_tag_pairs-load_file m es tag = value-load_known m es tag

-- Whether a list has an attribute of that name.
unfoldable pub has_attrib : PairList → String → Bool
has_attrib [] attrib = false
has_attrib (p ∷ ps) attrib = str_eq p.type1 attrib || has_attrib ps attrib

find_attrib-append :
    (none_pair : MPair) (ps qs : PairList) (attrib : String)
    → find_attrib none_pair (ps ++ qs) attrib ≡ (
        if has_attrib ps attrib
        then find_attrib none_pair ps attrib
        else find_attrib none_pair qs attrib)
unfolding find_attrib has_attrib
find_attrib-append none_pair [] qs attrib = refl
find_attrib-append none_pair (p ∷ ps) qs attrib =
    ground (arith, find_attrib-append none_pair ps qs attrib)

-- The entries of a list that belong to a tag.
unfoldable pub entries_of : String → List (String × MPair) → PairList
entries_of tag [] = []
entries_of tag ((t, p) ∷ es) = (if str_eq t tag then p ∷ [] else []) ++ entries_of tag es

value-append_entries :
    (m : Tags) (es : List (String × MPair)) (tag : String)
    → value (append_entries m es) tag ≡ value m tag ++ entries_of tag es
unfolding append_entries entries_of
value-append_entries m [] tag = sym (append-nil (value m tag))
value-append_entries m ((t, p) ∷ es) tag = ground (
  arith,
  value-append_entries (append m t p) es tag,
  value-append m t tag p,
  append_assoc (value m tag) (p ∷ []) (entries_of tag es),
)

-- `loadDefaults` never overrides: an attribute that the configuration already answers keeps its answer,
-- and any other is answered by the default for it, if there is one.
pub get_attrib-load_defaults :
    (none_pair : MPair) (m : Tags) (tag attrib : String)
    → (get_attrib_pair_from_tag none_pair (load_defaults m).1 tag attrib).0 ≡ (
        if has_attrib (value m tag) attrib
        then (get_attrib_pair_from_tag none_pair m tag attrib).0
        else find_attrib none_pair (entries_of tag defaults) attrib)
unfolding load_defaults
get_attrib-load_defaults none_pair m tag attrib =
    get_attrib_value none_pair (append_entries m defaults) tag attrib
    ∙ ap (λ ps. find_attrib none_pair ps attrib) (value-append_entries m defaults tag)
    ∙ find_attrib-append none_pair (value m tag) (entries_of tag defaults) attrib
    ∙ rw (get_attrib_value none_pair m tag attrib)
