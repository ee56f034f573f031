-- ===== src/Config/Tests.antt =====
-- Runs of the configuration, and the theorems of Config.Load at a small document.
use Prim.Native.String.{String}
use recd.Common.{◌≡◌, refl, false, some, List, [], ◌∷◌}
use recd.Config.{
  MPair, Element, index, assign, value, get_tag_pairs, find_attrib, get_attrib_pair_from_tag,
  fast_load_file, load_file, load_defaults, is_known,
}
use recd.Config.Shared.{empty_pair}
use recd.Config.Load.{
  attributes_of, has_attrib, entries_of, get_attrib-fast_load_file, get_tag_pairs-load_file,
  get_attrib-load_defaults,
}

abbrev port : String → MPair
port p = record { type1 = "port"; type2 = p }

abbrev document : List Element
document =
    record { name = "Network"; attributes = port "9000" ∷ port "9001" ∷ [] }
    ∷ record { name = "Paths"; attributes = record { type1 = "records"; type2 = "wavs" } ∷ [] }
    ∷ []

-- The assignment operator leaves its object alone.
assign_run : (assign (port "1") (port "2")).0 ≡ port "1"
unfolding assign
assign_run = refl

index_run : (index (port "7") "port" ≡ "7") × (index (port "7") "name" ≡ "")
unfolding index
index_run = (refl, refl)

get_attrib-fast_load_file_example :
    let loaded = (fast_load_file [] "a.xml" (some document)).1 in
    ((get_attrib_pair_from_tag empty_pair loaded "Network" "port").0 ≡ port "9000")
    × ((get_attrib_pair_from_tag empty_pair (get_tag_pairs loaded "Peek").1 "Network" "port").0
        ≡ port "9000")
unfolding find_attrib attributes_of
get_attrib-fast_load_file_example =
    get_attrib-fast_load_file empty_pair [] "a.xml" document "Network" "port" "Peek" refl

get_tag_pairs-load_file_applied :
    (get_tag_pairs (load_file [] false (some document)).1 "Paths").0 ≡ []
unfolding value is_known
get_tag_pairs-load_file_applied = get_tag_pairs-load_file [] document "Paths"

get_attrib-load_defaults_example :
    (get_attrib_pair_from_tag empty_pair (load_defaults []).1 "Log" "speed").0
    ≡ record { type1 = "speed"; type2 = "1000" }
unfolding value has_attrib entries_of find_attrib
get_attrib-load_defaults_example = get_attrib-load_defaults empty_pair [] "Log" "speed"
