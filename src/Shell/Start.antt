-- ===== src/Shell/Start.antt =====
-- Which configuration the application of app/sapplication.cpp starts with.
use Prim.Native.String.{String}
use text.Mathlib.Text.{◌==◌ as str_eq}
use recd.Common.{
  ◌≡◌, refl, ◌∙◌, Bool, true, false, ◌||◌, if◌then◌else◌, Option, none, some, List, [], ◌∷◌,
}
use recd.Config.{Element, Tags, fast_load_file, load_defaults, load_elements}
use recd.Shell.{setup_file, walk_args, application}

-- What an application starts with: the file's tags, or the defaults.
unfoldable pub chosen : Option (List Element) → Bool × Tags
chosen none = load_defaults []
chosen (some es) = (true, load_elements [] es)

load_or_defaults :
    (file : String) (m : Tags) (o : Option (List Element))
    → str_eq file "" ≡ false
    → (let (ok, m') = fast_load_file m file o in if ok then (true, m') else load_defaults m')
      ≡ chosen o
unfolding chosen fast_load_file
load_or_defaults file m none h = rw h refl
load_or_defaults file m (some es) h = rw h refl

walk_after :
    (open_file : String → Option (List Element)) (prog opt file : String) (m : Tags)
    → (str_eq prog "-c" || str_eq prog "--config") ≡ false
    → (str_eq prog "-d" || str_eq prog "--daemon") ≡ false
    → walk_args open_file (prog ∷ opt ∷ file ∷ []) (false, m)
      ≡ walk_args open_file (opt ∷ file ∷ []) (false, m)
unfolding walk_args
walk_after open_file prog opt file m c d = rw (c, d) refl

walk_last :
    (open_file : String → Option (List Element)) (opt file : String) (s : Bool × Tags)
    → (str_eq opt "-c" || str_eq opt "--config") ≡ true
    → (str_eq file "-c" || str_eq file "--config") ≡ false
    → (str_eq file "-d" || str_eq file "--daemon") ≡ false
    → walk_args open_file (opt ∷ file ∷ []) s ≡ setup_file open_file file s.1
unfolding walk_args
walk_last open_file opt file s o c d = rw (c, d, o) refl

-- A program that is started with "-c" or "--config" and a file has the file's configuration if the file can be read, and
-- else the defaults and nothing more, as it has without arguments; so m_setup is true either way. Neither the
-- program's name nor the file's is one of the options, and the file's is not empty.
pub application_lem :
    (open_file : String → Option (List Element)) (prog opt file : String) (m : Tags)
    → (str_eq prog "-c" || str_eq prog "--config") ≡ false
    → (str_eq prog "-d" || str_eq prog "--daemon") ≡ false
    → (str_eq opt "-c" || str_eq opt "--config") ≡ true
    → (str_eq file "-c" || str_eq file "--config") ≡ false
    → (str_eq file "-d" || str_eq file "--daemon") ≡ false
    → str_eq file "" ≡ false
    → (application open_file (prog ∷ opt ∷ file ∷ []) m ≡ chosen (open_file file))
      × (application open_file (prog ∷ []) [] ≡ chosen none)
unfolding application setup_file chosen
application_lem open_file prog opt file m pc pd o fc fd h = (
  walk_after open_file prog opt file m pc pd
      ∙ walk_last open_file opt file (false, m) o fc fd
      ∙ load_or_defaults file m (open_file file) h,
  refl,
)
