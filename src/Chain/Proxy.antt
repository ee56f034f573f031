-- ===== src/Chain/Proxy.antt =====
-- The plugins' `main_proxy`, which load the configuration that the command line names. `args` is argv, of which argv[argc]
-- is null; `open_file` is what the XML reader finds in a file.
use Prim.Native.String.{String}
use text.Mathlib.Text.{◌==◌ as str_eq}
use recd.Common.{
  ◌≡◌, refl, ap, ◌∙◌, Bool, true, false, not, ◌||◌, if◌then◌else◌, Option, none, some, List, [],
  ◌∷◌, ◌>>=◌, if-true, if-false, length, ltb,
}
use recd.Common.Int.{ℤ, pos, negsuc}
use recd.Config.{Element, Tags, fast_load_file}

-- What `fastLoadFile` leaves does not depend on what was loaded before.
fast_load_file_fresh :
    (m m' : Tags) (file : String) (es : List Element)
    → str_eq file "" ≡ false
    → (fast_load_file m file (some es)).1 ≡ (fast_load_file m' file (some es)).1
unfolding fast_load_file
fast_load_file_fresh m m' file es h = rw h refl

fast_load_file-none :
    (m : Tags) (file : String) → str_eq file "" ≡ false → (fast_load_file m file none).1 ≡ []
unfolding fast_load_file
fast_load_file-none m file h = rw h refl

module _ (open_file : String → Option (List Element)) where
  unfoldable pub load_arg : String → Tags → Tags
  load_arg a m = (fast_load_file m a (open_file a)).1

  -- `strcmp(arg, "-c") == 0 || strcmp(arg, "--config")`, in all of them but the UDP server and the capture.
  unfoldable pub counts_as_option : String → Bool
  counts_as_option a = str_eq a "-c" || not (str_eq a "--config")

  unfoldable pub is_option : String → Bool
  is_option a = str_eq a "-c" || str_eq a "--config"

  unfoldable pub scan_args : List String → Tags → Tags
  scan_args [] m = m
  scan_args (a ∷ []) m = m
  scan_args (a ∷ b ∷ rest) m = scan_args (b ∷ rest) (if counts_as_option a then load_arg b m else m)

  -- `main_proxy` of the null, producer, consumer, MD5 and recorder plugins
  unfoldable pub main_proxy : List String → Tags → ℤ × Tags
  main_proxy args m = if ltb (length args) 2 then (negsuc 0, m) else (pos 0, scan_args args m)

  -- `p_main` of the UDP server, which stops at the first file.
  unfoldable pub first_config : List String → Tags → Tags
  first_config [] m = m
  first_config (a ∷ []) m = m
  first_config (a ∷ b ∷ rest) m =
      let later = first_config (b ∷ rest) m in if is_option a then load_arg b m else later

  unfoldable pub p_main : List String → Tags → ℤ × Tags
  p_main args m = if ltb (length args) 2 then (negsuc 0, m) else (pos 0, first_config args m)

  -- `main_proxy` of the capture, which leaves out the program's name; the test of `i+1` never holds, and a null
  -- argument is an empty name. `none` is `exit(0)`.
  unfoldable pub capture_args : List String → Tags → Option Tags
  capture_args [] m = some m
  capture_args (a ∷ []) m =
      if str_eq a "-l" || str_eq a "--list-dev"
      then none
      else some (if is_option a then load_arg "" m else m)
  capture_args (a ∷ b ∷ rest) m =
      let later = capture_args (b ∷ rest) (if is_option a then load_arg b m else m) in
      if str_eq a "-l" || str_eq a "--list-dev" then none else later

  unfoldable pub capture_proxy : List String → Tags → Option (ℤ × Tags)
  capture_proxy [] m = some (negsuc 0, m)
  capture_proxy (prog ∷ []) m = some (negsuc 0, m)
  capture_proxy (prog ∷ a ∷ rest) m = capture_args (a ∷ rest) m >>= λ m'. some (pos 0, m')

  loads :
      (file : String) (es : List Element) (m m' : Tags)
      → str_eq file "" ≡ false
      → open_file file ≡ some es
      → load_arg file m ≡ (fast_load_file m' file (some es)).1
  unfolding load_arg
  loads file es m m' he ho =
      ap (λ o. (fast_load_file m file o).1) ho ∙ fast_load_file_fresh m m' file es he

  misses :
      (file : String) (m : Tags)
      → str_eq file "" ≡ false
      → open_file file ≡ none
      → load_arg file m ≡ []
  unfolding load_arg
  misses file m he ho = ap (λ o. (fast_load_file m file o).1) ho ∙ fast_load_file-none m file he

  -- A program that is started with an option and a file that can be read, where the program's name is neither "-c" nor
  -- "--config", the file's name is not empty, none of these two and neither "-l" nor "--list-dev", and no file called
  -- "-c" or "--config" can be read. With "-c" the null, producer, consumer, MD5 and recorder plugins, the UDP server and the
  -- capture all leave the configuration of the file and nothing of what was there before. With "--config" the UDP server and
  -- the capture do so too, but the first five take the word "--config" for the file and leave an empty configuration.
  pub main_proxy_lem :
      (prog file : String) (es : List Element) (m : Tags)
      → str_eq prog "-c" ≡ false
      → str_eq prog "--config" ≡ false
      → str_eq file "" ≡ false
      → (str_eq file "-c" || str_eq file "--config") ≡ false
      → (str_eq file "-l" || str_eq file "--list-dev") ≡ false
      → open_file file ≡ some es
      → open_file "-c" ≡ none
      → open_file "--config" ≡ none
      → let loaded = (fast_load_file m file (some es)).1 in
        (main_proxy (prog ∷ "-c" ∷ file ∷ []) m ≡ (pos 0, loaded))
        × (p_main (prog ∷ "-c" ∷ file ∷ []) m ≡ (pos 0, loaded))
        × (p_main (prog ∷ "--config" ∷ file ∷ []) m ≡ (pos 0, loaded))
        × (main_proxy (prog ∷ "--config" ∷ file ∷ []) m ≡ (pos 0, []))
        × (capture_proxy (prog ∷ "-c" ∷ file ∷ []) m ≡ some (pos 0, loaded))
        × (capture_proxy (prog ∷ "--config" ∷ file ∷ []) m ≡ some (pos 0, loaded))
  unfolding main_proxy p_main scan_args first_config counts_as_option is_option capture_proxy
      capture_args
  main_proxy_lem prog file es m hc hl he no_option no_list ho nc nl = (
    ap (λ k. (pos 0, k)) (loads file es _ m he ho),
    ap (λ k. (pos 0, k)) (if-false {b = is_option prog} _ _ other ∙ loads file es m m he ho),
    ap (λ k. (pos 0, k)) (if-false {b = is_option prog} _ _ other ∙ loads file es m m he ho),
    ap (λ k. (pos 0, k))
        (if-true {b = counts_as_option prog} _ _ counts ∙ misses "--config" m refl nl),
    rw (no_list, no_option) (ap (λ k. some (pos 0, k)) (loads file es m m he ho)),
    rw (no_list, no_option) (ap (λ k. some (pos 0, k)) (loads file es m m he ho)),
  )
    where
      other : (str_eq prog "-c" || str_eq prog "--config") ≡ false
      other = rw (hc, hl) refl

      counts : (str_eq prog "-c" || not (str_eq prog "--config")) ≡ true
      counts = rw (hc, hl) refl
