-- ===== src/Shell/Tests.antt =====
-- Runs of the start, and its theorem at a small document.
use Prim.Native.String.{String}
use text.Mathlib.Text.{◌==◌ as str_eq}
use recd.Common.{ℕ, ◌≡◌, refl, true, false, Option, none, some, List, [], ◌∷◌, if◌then◌else◌}
use recd.Common.Int.{ℤ, pos, negsuc}
use recd.Config.{Element, load_elements, load_defaults}
use recd.UserServer.{contains, starts_with}
use recd.Shell.{get_opts, is_daemon, main_daemon, application}
use recd.Shell.Start.{chosen, application_lem}
use recd.Shell.WavConfig.{
  no_attribs, read_line, read_lines, find_param, second_part, until_colon, get_attribute,
}

abbrev document : List Element
document =
    record { name = "Network"; attributes = record { type1 = "port"; type2 = "9000" } ∷ [] } ∷ []

abbrev only_file : String → Option (List Element)
only_file name = if str_eq name "rec.xml" then some document else none

application_lem_example :
    (application only_file ("recd" ∷ "--config" ∷ "rec.xml" ∷ []) []
      ≡ (true, load_elements [] document))
    × (application only_file ("recd" ∷ []) [] ≡ load_defaults [])
unfolding chosen
application_lem_example =
    application_lem only_file "recd" "--config" "rec.xml" [] refl refl refl refl refl refl

daemon_run :
    (main_daemon ("recd" ∷ "-h" ∷ "--daemon" ∷ []) ≡ true) × (main_daemon ("recd" ∷ []) ≡ false)
unfolding main_daemon is_daemon get_opts
daemon_run = (refl, refl)

-- "RIFF_LEN:16", an empty line, and "CHANNELS:16", which is not read any more.
abbrev riff_line : List ℕ
riff_line = 82 ∷ 73 ∷ 70 ∷ 70 ∷ 95 ∷ 76 ∷ 69 ∷ 78 ∷ 58 ∷ 49 ∷ 54 ∷ []

abbrev channels_line : List ℕ
channels_line = 67 ∷ 72 ∷ 65 ∷ 78 ∷ 78 ∷ 69 ∷ 76 ∷ 83 ∷ 58 ∷ 49 ∷ 54 ∷ []

abbrev sixteen : List ℕ → Option ℤ
sixteen bytes = some (pos 16)

lines_run :
    let attribs = read_lines sixteen (riff_line ∷ [] ∷ channels_line ∷ []) no_attribs in
    (get_attribute attribs (pos 2) ≡ some (pos 16))
    × (get_attribute attribs (pos 4) ≡ none)
    × (get_attribute attribs (pos 5) ≡ none)
    × (get_attribute attribs (pos 6) ≡ some (negsuc 0))
unfolding read_lines read_line find_param second_part until_colon get_attribute contains starts_with
lines_run = (refl, refl, refl, refl)
