-- ===== src/Shell.antt =====
-- How the program starts: the options of app/main.cpp, and what the constructor of app/sapplication.cpp does with them. A
-- null argv[argc] ends the list of arguments.
pub mod Start
pub mod WavConfig
pub mod Lifecycle
mod Tests
use Prim.Native.String.{String}
use text.Mathlib.Text.{◌==◌ as str_eq}
use recd.Common.{
  ℕ, Bool, true, false, ◌||◌, ◌==◌, if◌then◌else◌, Option, none, some, List, [], ◌∷◌, ltb, length,
}
use recd.Config.{Element, Tags, fast_load_file, load_defaults}

-- `getOpts`
unfoldable pub get_opts : String → ℕ
get_opts str =
    if str_eq str "-d" || str_eq str "--daemon"
    then 1
    else if str_eq str "-h" || str_eq str "--help"
    then 2
    else if str_eq str "-c" || str_eq str "--config"
    then 0
    else 4

-- The loop of `main` over all of its arguments, the program's name too: whether it becomes a daemon. Help is printed, and
-- the program goes on.
unfoldable pub is_daemon : List String → Bool
is_daemon [] = false
is_daemon (a ∷ args) = let later = is_daemon args in if get_opts a == 1 then true else later

unfoldable pub main_daemon : List String → Bool
main_daemon args = if ltb 1 (length args) then is_daemon args else false

module _ (open_file : String → Option (List Element)) where
  -- A file behind "-c": its tags, or else the defaults are added to what is there.
  unfoldable pub setup_file : String → Tags → Bool × Tags
  setup_file fname m =
      let (ok, m') = fast_load_file m fname (open_file fname) in
      if ok then (true, m') else load_defaults m'

  -- The loop of the constructor: `m_setup` and the configuration.
  unfoldable pub walk_args : List String → Bool × Tags → Bool × Tags
  walk_args [] s = s
  walk_args (a ∷ []) s =
      if str_eq a "-c" || str_eq a "--config"
      then s
      else if str_eq a "-d" || str_eq a "--daemon"
      then load_defaults s.1
      else s
  walk_args (a ∷ b ∷ rest) s = walk_args (b ∷ rest) (
      if str_eq a "-c" || str_eq a "--config"
      then setup_file b s.1
      else if str_eq a "-d" || str_eq a "--daemon"
      then load_defaults s.1
      else s)

  unfoldable pub application : List String → Tags → Bool × Tags
  application args m = if length args == 1 then load_defaults m else walk_args args (false, m)
