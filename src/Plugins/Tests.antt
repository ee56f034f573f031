-- ===== src/Plugins/Tests.antt =====
-- Two plugins, loaded from two libraries.
use Prim.Native.String.{String}
use text.Mathlib.Text.{◌==◌ as str_eq}
use recd.Common.{ℕ, ◌≡◌, refl, Option, true, none, some, List, [], ◌∷◌, ◌++◌, arith, if◌then◌else◌}
use recd.Config.{MPair}
use recd.Config.Shared.{Store, empty_pair}
use recd.Plugins.Requests.{Entry, IsEntry, attributes, requests-attributes, requests_past_end}
use recd.Plugins.{
  requests, Interface, Plugins, Library, plugin, not_loaded, load_all, call_deinit, deinit_all,
  Ending, returns,
}
use recd.Plugins.Links.{IsChain}
use recd.Plugins.Order.{walk-load_all}
use recd.Plugins.Names.{set_name, get_name, get_name-set_name}
use recd.Chain.{null_plugin}

abbrev object : Interface
object = record { complete = true; name = ""; next_plugin = none }

abbrev bare : Plugins
bare = record { interfaces = object ∷ object ∷ []; head = none; tail = none }

abbrev libs : String → Library
libs src =
    if str_eq src "librec.so"
    then plugin 0
    else if str_eq src "libudp.so"
    then plugin 1
    else not_loaded

abbrev asked : List (String × String)
asked = ("libudp.so", "udp") ∷ ("librec.so", "recorder") ∷ []

walk-load_all_applied :
    (s' : Plugins) × (load_all libs bare asked ≡ some s')
    × IsChain s' (1 ∷ 0 ∷ [])
    × (deinit_all 3 s' ≡ some (call_deinit 1 ∷ call_deinit 0 ∷ []))
walk-load_all_applied =
    walk-load_all libs asked (1 ∷ 0 ∷ []) bare 3 (record { no_head = refl; no_tail = refl })
      ((λ e. absurd (omega (arith, e)), tt), (tt, tt)) (refl, (refl, tt)) (refl, (refl, tt))
      (omega arith)

abbrev attr : String → String → MPair
attr name val = record { type1 = name; type2 = val }

abbrev recorder : Entry
recorder = record {
  name_attr = attr "name" "recorder";
  second = attr "order" "1";
  third = attr "enabled" "true";
  path_attr = attr "path" "librec.so";
  more = attr "conf" "" ∷ [];
}

recorder-IsEntry : IsEntry recorder
recorder-IsEntry = record {
  is_name = refl;
  not_empty = refl;
  second_other = refl;
  third_other = refl;
  path_other = refl;
  more_other = (refl, tt);
}

requests-attributes_applied :
    requests (attributes (recorder ∷ recorder ∷ []))
    ≡ some (("librec.so", "recorder") ∷ ("librec.so", "recorder") ∷ [])
requests-attributes_applied =
    requests-attributes (recorder ∷ recorder ∷ []) (recorder-IsEntry, (recorder-IsEntry, tt))

requests_past_end_applied :
    requests (
      attributes (recorder ∷ [])
      ++ (attr "name" "recorder" ∷ attr "order" "1" ∷ attr "enabled" "true" ∷ []))
    ≡ none
requests_past_end_applied =
    requests_past_end (recorder ∷ []) recorder (recorder-IsEntry, tt) recorder-IsEntry

-- A `main_proxy` that changes nothing.
abbrev quiet_main : ℕ → Store → Option Ending
quiet_main a st = some (returns st)

abbrev empty_store : Store
empty_store = record { tags = []; none_pair = empty_pair }

abbrev ab : List ℕ
ab = 97 ∷ 98 ∷ []

get_name-set_name_applied : get_name null_plugin (set_name ab) ≡ some ab
get_name-set_name_applied =
    (get_name-set_name null_plugin ab (λ e. absurd (ground (arith, e)))
        ((λ e. absurd (omega (arith, e))), ((λ e. absurd (omega (arith, e))), tt))).0
      (omega arith)
