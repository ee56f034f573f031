-- ===== src/Plugins/Requests.antt =====
-- What `loadPlugins` of app/sapplication.cpp loads for the attributes of the tag `Plugin`.
use Prim.Native.String.{String}
use text.Mathlib.Text.{◌==◌ as str_eq}
use recd.Common.{
  ◌≡◌, refl, ap, ◌∙◌, true, false, none, some, List, [], ◌∷◌, ◌++◌, arith, length, map, ◌>>=◌,
  get_elem?, if◌then◌else◌, ltb, append_assoc, if-false,
}
use recd.Config.{MPair, PairList}
use recd.Plugins.{requests}

-- The attributes of one plugin: the name first, the file in the fourth place.
pub record Entry : Type 0 where
  pub name_attr : MPair
  pub second : MPair
  pub third : MPair
  pub path_attr : MPair
  pub more : PairList

abbrev pub NoNames : PairList → Type 0
NoNames [] = Unit {0}
NoNames (p ∷ ps) = (str_eq p.type1 "name" ≡ false) × NoNames ps

pub record IsEntry (e : Entry) : Type 0 where
  pub is_name : str_eq e.name_attr.type1 "name" ≡ true
  pub not_empty : str_eq e.name_attr.type2 "" ≡ false
  pub second_other : str_eq e.second.type1 "name" ≡ false
  pub third_other : str_eq e.third.type1 "name" ≡ false
  pub path_other : str_eq e.path_attr.type1 "name" ≡ false
  pub more_other : NoNames e.more

abbrev pub AllEntries : List Entry → Type 0
AllEntries [] = Unit {0}
AllEntries (e ∷ es) = IsEntry e × AllEntries es

abbrev pub attributes : List Entry → PairList
attributes [] = []
attributes (e ∷ es) = e.name_attr ∷ e.second ∷ e.third ∷ e.path_attr ∷ (e.more ++ attributes es)

abbrev pub asked : List Entry → List (String × String)
asked = map (λ e. (e.path_attr.type2, e.name_attr.type2))

requests-other :
    (p : MPair) (ps : PairList) → str_eq p.type1 "name" ≡ false → requests (p ∷ ps) ≡ requests ps
unfolding requests
requests-other p ps h = rw h refl

requests-more : (ms ps : PairList) → NoNames ms → requests (ms ++ ps) ≡ requests ps
requests-more [] ps h = refl
requests-more (m ∷ ms) ps h = requests-other m (ms ++ ps) h.0 ∙ requests-more ms ps h.1

requests-name :
    (p : MPair) (ps : PairList)
    → str_eq p.type1 "name" ≡ true
    → str_eq p.type2 "" ≡ false
    → requests (p ∷ ps) ≡ (
        if ltb (length (p ∷ ps)) 3
        then requests ps
        else get_elem? (p ∷ ps) 3 >>= λ q. requests ps >>= λ reqs. some ((q.type2, p.type2) ∷ reqs))
unfolding requests
requests-name p ps h k = rw (h, k) refl

requests-entry :
    (e : Entry) (ps : PairList)
    → IsEntry e
    → requests (e.name_attr ∷ e.second ∷ e.third ∷ e.path_attr ∷ (e.more ++ ps))
      ≡ (requests ps >>= λ reqs. some ((e.path_attr.type2, e.name_attr.type2) ∷ reqs))
requests-entry e ps v =
    requests-name e.name_attr (e.second ∷ e.third ∷ e.path_attr ∷ (e.more ++ ps)) v.is_name
      v.not_empty
    ∙ if-false
        {b = ltb (length (e.name_attr ∷ e.second ∷ e.third ∷ e.path_attr ∷ (e.more ++ ps))) 3} _ _
        (ground arith)
    ∙ ap (λ o. o >>= λ reqs. some ((e.path_attr.type2, e.name_attr.type2) ∷ reqs))
        (requests-other e.second (e.third ∷ e.path_attr ∷ (e.more ++ ps)) v.second_other
          ∙ requests-other e.third (e.path_attr ∷ (e.more ++ ps)) v.third_other
          ∙ requests-other e.path_attr (e.more ++ ps) v.path_other
          ∙ requests-more e.more ps v.more_other)

-- Where each plugin has its name first and a file in the fourth place, whatever the attributes are called, and no other
-- attribute is called name, the plugins are loaded in the order of the file, each from its own file and under its name.
pub requests-attributes :
    (es : List Entry) → AllEntries es → requests (attributes es) ≡ some (asked es)
unfolding requests
requests-attributes [] v = refl
requests-attributes (e ∷ es) v =
    requests-entry e (attributes es) v.0 ∙ rw (requests-attributes es v.1) refl

-- If the last plugin has a name and just two more attributes, the test that should skip it lets it pass, and
-- the fourth attribute is read behind the end of the list.
pub requests_past_end :
    (es : List Entry) (e : Entry)
    → AllEntries es
    → IsEntry e
    → requests (attributes es ++ (e.name_attr ∷ e.second ∷ e.third ∷ [])) ≡ none
requests_past_end [] e v w =
    requests-name e.name_attr (e.second ∷ e.third ∷ []) w.is_name w.not_empty
    ∙ if-false {b = ltb (length (e.name_attr ∷ e.second ∷ e.third ∷ [])) 3}
        (requests (e.second ∷ e.third ∷ [])) none (ground arith)
requests_past_end (e' ∷ es) e v w =
    ap (λ l. requests (e'.name_attr ∷ e'.second ∷ e'.third ∷ e'.path_attr ∷ l))
      (append_assoc e'.more (attributes es) (e.name_attr ∷ e.second ∷ e.third ∷ []))
    ∙ requests-entry e' (attributes es ++ (e.name_attr ∷ e.second ∷ e.third ∷ [])) v.0
    ∙ rw (requests_past_end es e v.1 w) refl
