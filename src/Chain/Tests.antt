-- ===== src/Chain/Tests.antt =====
-- Runs of chains of plugins and of their command lines, and the theorems at small inputs.
use Prim.Native.String.{String}
use text.Mathlib.Text.{◌==◌ as str_eq}
use recd.Common.{if◌then◌else◌, ◌≡◌, refl, arith, Option, none, some, List, [], ◌∷◌}
use recd.Common.Int.{pos}
use recd.Config.{Element, fast_load_file}
use recd.Server.{SampleData}
use recd.Chain.{
  Kind, null_plugin, udp_server, md5, dtmf, recorder, Plugin, keep, last_list, is_md5, put_data,
  put_ndata, hands_on,
}
use recd.Chain.Passes.{ends_well, left_by, put_data_total, put_data_endless}
use recd.Chain.Proxy.{
  main_proxy, p_main, capture_proxy, capture_args, is_option, load_arg, main_proxy_lem,
}

abbrev plugin : Kind → Plugin
plugin k = record { kind = k; samples = []; lists = [] }

abbrev entries : List SampleData
entries = record { signal = 1; samples = 4 ∷ []; size = 1 } ∷ []

-- The recorder behind the DTMF detector: both keep the list, and nobody clears it.
put_data_total_example :
    put_data 4 (plugin udp_server ∷ plugin dtmf ∷ plugin recorder ∷ []) entries
    ≡ some (
      plugin udp_server
          ∷ record (plugin dtmf) { samples = entries }
          ∷ record (plugin recorder) { lists = entries ∷ [] }
          ∷ [],
      entries,
    )
unfolding ends_well is_md5 keep left_by last_list
put_data_total_example =
    put_data_total (plugin udp_server ∷ plugin dtmf ∷ plugin recorder ∷ []) entries 4 refl
      (omega arith)

put_data_endless_applied : put_data 1000 (plugin md5 ∷ plugin recorder ∷ []) entries ≡ none
unfolding is_md5
put_data_endless_applied = put_data_endless (plugin md5) (plugin recorder) [] entries 1000 refl

put_ndata_run : put_ndata (null_plugin ∷ dtmf ∷ recorder ∷ []) ≡ null_plugin ∷ dtmf ∷ []
unfolding put_ndata hands_on
put_ndata_run = refl

abbrev document : List Element
document =
    record { name = "Network"; attributes = record { type1 = "port"; type2 = "9000" } ∷ [] } ∷ []

abbrev only_file : String → Option (List Element)
only_file name = if str_eq name "rec.xml" then some document else none

main_proxy_lem_example :
    let loaded = (fast_load_file [] "rec.xml" (some document)).1 in
    (main_proxy only_file ("recd" ∷ "-c" ∷ "rec.xml" ∷ []) [] ≡ (pos 0, loaded))
    × (p_main only_file ("recd" ∷ "-c" ∷ "rec.xml" ∷ []) [] ≡ (pos 0, loaded))
    × (p_main only_file ("recd" ∷ "--config" ∷ "rec.xml" ∷ []) [] ≡ (pos 0, loaded))
    × (main_proxy only_file ("recd" ∷ "--config" ∷ "rec.xml" ∷ []) [] ≡ (pos 0, []))
    × (capture_proxy only_file ("recd" ∷ "-c" ∷ "rec.xml" ∷ []) [] ≡ some (pos 0, loaded))
    × (capture_proxy only_file ("recd" ∷ "--config" ∷ "rec.xml" ∷ []) [] ≡ some (pos 0, loaded))
main_proxy_lem_example =
    main_proxy_lem only_file "recd" "rec.xml" document [] refl refl refl refl refl refl refl refl

capture_run :
    (capture_proxy only_file ("recd" ∷ "-l" ∷ []) [] ≡ none)
    × (capture_proxy only_file ("recd" ∷ "-c" ∷ []) [] ≡ some (pos 0, []))
unfolding capture_proxy capture_args is_option load_arg fast_load_file
capture_run = (refl, refl)
