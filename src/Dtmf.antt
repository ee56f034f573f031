-- ===== src/Dtmf.antt =====
-- DFT/dtmf.cpp: `Dtmf`, the plugin around the detector of another author, of which only its input is seen here. A result
-- `none` is an access outside an array, the use of an object that is gone, or a loop that does not end.
pub mod Detects
pub mod Thread
mod Tests
use Prim.Native.String.{String}
use text.Mathlib.Text.{◌==◌ as str_eq}
use recd.Common.{
  ℕ, zero, suc, ◌+◌, ◌||◌, if◌then◌else◌, Option, none, some, List, [], ◌∷◌, ◌++◌, length,
  get_elem?, ltb, leb, ◌>>=◌, collect,
}
use recd.Common.Int.{ℤ, pos, negsuc}
use recd.Config.{MPair, PairList, Element, Tags, get_tag_pairs, get_attrib_pair_from_tag}
use recd.Server.{SampleData}
use recd.Chain.Proxy.{counts_as_option, load_arg}

pub record Settings : Type 0 where
  pub freq : ℤ
  pub frame_size : ℤ

-- How the search for the attribute "conf" ends: it goes on, it returns 0, or it goes on in a list that `fastLoadFile` has
-- destroyed.
pub data Search : Type 0 where
  goes_on : Search
  returns : Settings → Tags → Search
  dangles : Search

module _ (open_file : String → Option (List Element)) (to_int : String → Option ℤ)
    (none_pair : MPair) where
  unfoldable pub int_or : String → ℤ → ℤ
  int_or s d = elim (to_int s) [ none ↦ d | some n ↦ n ]

  -- The file of the attribute "conf" replaces the configuration.
  unfoldable pub configure : String → Tags → Search
  configure fname m =
      let (freq, m1) =
        get_attrib_pair_from_tag none_pair (load_arg open_file fname m) "Config" "freq" in
      let (frm_sz, m2) = get_attrib_pair_from_tag none_pair m1 "Config" "frameSize" in
      if str_eq freq.type1 "" || str_eq frm_sz.type1 ""
      then dangles
      else returns
          (record {
            freq = int_or freq.type2 (pos 102);
            frame_size = int_or frm_sz.type2 (pos 160);
          })
          m2

  -- The inner loop, from the attribute "dtmf" on.
  unfoldable pub find_conf : PairList → Tags → Search
  find_conf [] m = goes_on
  find_conf (p ∷ ps) m =
      let later = find_conf ps m in if str_eq p.type1 "conf" then configure p.type2 m else later

  unfoldable pub find_dtmf : PairList → Tags → Search
  find_dtmf [] m = goes_on
  find_dtmf (p ∷ ps) m =
      let later = find_dtmf ps m in
      let here = find_conf (p ∷ ps) m in
      if str_eq p.type2 "dtmf"
      then elim here [ goes_on ↦ later | returns s m' ↦ returns s m' | dangles ↦ dangles ]
      else later

  unfoldable pub dtmf_args : List String → Tags → Settings → Option (Tags × Settings)
  dtmf_args [] m s = some (m, s)
  dtmf_args (a ∷ []) m s = some (m, s)
  dtmf_args (a ∷ b ∷ rest) m s =
      let skipped = dtmf_args (b ∷ rest) m s in
      let (ls, m') = get_tag_pairs (load_arg open_file b m) "Plugin" in
      let loaded = dtmf_args (b ∷ rest) m' s in
      if counts_as_option open_file a
      then elim (find_dtmf ls m') [
        | goes_on ↦ loaded
        | returns s' m'' ↦ some (m'', s')
        | dangles ↦ none
      ]
      else skipped

  unfoldable pub p_main : List String → Tags → Settings → Option (ℤ × Tags × Settings)
  p_main args m s =
      if ltb (length args) 2
      then some (negsuc 0, m, s)
      else (dtmf_args args m s >>= λ (m', s'). some (pos 0, m', s'))

-- `smpl.samples[j]` for `j` below `smpl.size`
unfoldable pub entry_samples : SampleData → Option (List ℕ)
entry_samples e = collect e.size 0 (λ j. get_elem? e.samples j)

-- The loop over `ii`: the same entry again and again. `written` is what the array has up to `ii`.
unfoldable pub fill_dtmf : ℕ → ℕ → SampleData → List ℕ → Option (List ℕ)
fill_dtmf zero frame_size e written = none
fill_dtmf (suc n) frame_size e written =
    let again = entry_samples e >>= λ samples.
    let next = fill_dtmf n frame_size e (written ++ samples) in
    if ltb frame_size (length (written ++ samples)) then none else next in
    if leb frame_size (length written) then some written else again

-- One round of `run`: the array that the detector gets, if it gets one, and the buffer afterwards. `dbl` is cleared
-- after its first entry, so that the loop over it has one round. Fuel of one more than the frame is enough for
-- entries that are not empty.
unfoldable pub run_round : ℕ → List SampleData → Option (Option (List ℕ) × List SampleData)
run_round frame_size buffer =
    if ltb (length buffer) frame_size then some (none, buffer) else detect buffer
  where
    detect : List SampleData → Option (Option (List ℕ) × List SampleData)
    detect [] = some (none, [])
    detect (e ∷ es) = fill_dtmf (frame_size + 1) frame_size e [] >>= λ array. some (some array, [])
