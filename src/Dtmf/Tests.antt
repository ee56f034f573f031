-- ===== src/Dtmf/Tests.antt =====
-- Runs of the DTMF plugin, and its theorem at three entries.
use Prim.Native.String.{String}
use text.Mathlib.Text.{◌==◌ as str_eq}
use recd.Common.{
  ℕ, ◌+◌, ◌++◌, ◌≡◌, refl, arith, Option, none, some, List, [], ◌∷◌, if◌then◌else◌, collect,
}
use recd.Common.Int.{ℤ, pos}
use recd.Config.{
  Element, get_tag_pairs, get_attrib_pair_from_tag, find_attrib, load_elements, append_all, append,
  fast_load_file, value, has_key,
}
use mathlib.Core.Option
use recd.Config.Shared.{empty_pair}
use recd.Server.{SampleData}
use recd.Chain.Proxy.{counts_as_option, load_arg}
use recd.Writer.Files.{concat}
use recd.Dtmf.{
  p_main, dtmf_args, find_dtmf, find_conf, configure, int_or, entry_samples, fill_dtmf, run_round,
}
use recd.Dtmf.Detects.{run_round_lem}
use recd.Dtmf.Thread.{
  new_dtmf, init, deinit, show_buttons, print_buttons, dial_buttons, show_buttons_lem, take_counted,
  take_counted-length,
}

abbrev entry : ℕ → SampleData
entry a = record { signal = 1; samples = a ∷ (a + 1) ∷ []; size = 2 }

entry_read : entry_samples (entry 5) ≡ some (5 ∷ 6 ∷ [])
unfolding entry_samples collect
entry_read = refl

-- Of three entries the first one fills the array.
run_round_lem_example :
    run_round 2 (entry 5 ∷ entry 7 ∷ entry 9 ∷ []) ≡ some (some (5 ∷ 6 ∷ []), [])
unfolding concat
run_round_lem_example =
    run_round_lem (entry 5) (entry 7 ∷ entry 9 ∷ []) 1 2 (5 ∷ 6 ∷ []) entry_read (omega arith) refl
      (omega arith)

-- An entry that does not divide the frame is written over the array's end.
overflow_run : run_round 3 (entry 5 ∷ entry 7 ∷ entry 9 ∷ []) ≡ none
unfolding run_round entry_samples fill_dtmf collect
overflow_run = refl

-- "rec.xml" names the plugin and its file "dtmf.xml", which gives the size of a frame, and no number for the frequency.
abbrev files : String → Option (List Element)
files name =
    if str_eq name "rec.xml"
    then some (
        record {
          name = "Plugin";
          attributes =
              record { type1 = "name"; type2 = "dtmf" }
              ∷ record { type1 = "conf"; type2 = "dtmf.xml" }
              ∷ [];
        }
        ∷ [])
    else if str_eq name "dtmf.xml"
    then some (
        record {
          name = "Config";
          attributes =
              record { type1 = "freq"; type2 = "x" }
              ∷ record { type1 = "frameSize"; type2 = "200" }
              ∷ [];
        }
        ∷ [])
    else none

abbrev as_int : String → Option ℤ
as_int s = if str_eq s "200" then some (pos 200) else none

p_main_run :
    Option.map
      (λ r. r.2)
      (p_main files as_int empty_pair
        ("recd" ∷ "-c" ∷ "rec.xml" ∷ [])
        []
        (record { freq = pos 1; frame_size = pos 2 }))
    ≡ some (record { freq = pos 102; frame_size = pos 200 })
unfolding p_main dtmf_args find_dtmf find_conf configure int_or counts_as_option load_arg
    fast_load_file load_elements append_all append get_tag_pairs get_attrib_pair_from_tag
    find_attrib value has_key
p_main_run = refl

-- "1A3": the first and the third button are at their places.
show_buttons_lem_applied : show_buttons 3 (49 ∷ 65 ∷ 51 ∷ []) ≡ some ((0, 49) ∷ (2, 51) ∷ [])
show_buttons_lem_applied = show_buttons_lem (49 ∷ 65 ∷ 51 ∷ []) (omega arith)

-- A seventeenth button is looked for behind the array.
seventeen : show_buttons 17 (dial_buttons ++ (49 ∷ [])) ≡ none
unfolding show_buttons print_buttons
seventeen = refl

lost_run : take_counted 1 (entry 5 ∷ entry 7 ∷ []) ≡ some (entry 5 ∷ [], [])
lost_run = take_counted-length (entry 5 ∷ []) (entry 7 ∷ [])

stopped : deinit (init new_dtmf) ≡ new_dtmf
unfolding init deinit
stopped = refl
