-- ===== src/Shell/WavConfig.antt =====
-- app/config.cpp: `WavConfig`, an older reader of lines "NAME : number". A line is its bytes, trimmed; behind the last line of
-- the file every line is empty. `to_int` is `QByteArray::toInt`.
use recd.Common.{
  ℕ, ◌+◌, ◌==◌, if◌then◌else◌, Option, none, some, List, [], ◌∷◌, get_elem?, set, replicate, ltb,
}
use recd.Common.Int.{ℤ, pos, negsuc}
use recd.UserServer.{contains}

-- `m_attribs`, five numbers that the constructor does not set; `none` is one that was not.
abbrev pub no_attribs : List (Option ℤ)
no_attribs = replicate 5 none

-- `line.split(':').at(1)`
unfoldable pub until_colon : List ℕ → List ℕ
until_colon [] = []
until_colon (c ∷ cs) = let rest = until_colon cs in if c == 58 then [] else c ∷ rest

unfoldable pub second_part : List ℕ → List ℕ
second_part [] = []
second_part (c ∷ cs) = let later = second_part cs in if c == 58 then until_colon cs else later

-- "SAMPLES_PER_FRAME", "BITS_PER_SEC", "RIFF_LEN", "AUD_FORMAT" and "CHANNELS", in the order they are looked for
abbrev pub param_names : List (List ℕ)
param_names =
    (83 ∷ 65 ∷ 77 ∷ 80 ∷ 76 ∷ 69 ∷ 83 ∷ 95 ∷ 80 ∷ 69 ∷ 82 ∷ 95 ∷ 70 ∷ 82 ∷ 65 ∷ 77 ∷ 69 ∷ [])
    ∷ (66 ∷ 73 ∷ 84 ∷ 83 ∷ 95 ∷ 80 ∷ 69 ∷ 82 ∷ 95 ∷ 83 ∷ 69 ∷ 67 ∷ [])
    ∷ (82 ∷ 73 ∷ 70 ∷ 70 ∷ 95 ∷ 76 ∷ 69 ∷ 78 ∷ [])
    ∷ (65 ∷ 85 ∷ 68 ∷ 95 ∷ 70 ∷ 79 ∷ 82 ∷ 77 ∷ 65 ∷ 84 ∷ [])
    ∷ (67 ∷ 72 ∷ 65 ∷ 78 ∷ 78 ∷ 69 ∷ 76 ∷ 83 ∷ [])
    ∷ []

-- The number of the first name that the line contains.
unfoldable pub find_param : List (List ℕ) → ℕ → List ℕ → Option ℕ
find_param [] i line = none
find_param (name ∷ names) i line =
    let later = find_param names (i + 1) line in if contains line name then some i else later

module _ (to_int : List ℕ → Option ℤ) where
  unfoldable pub read_line : List ℕ → List (Option ℤ) → List (Option ℤ)
  read_line line attribs =
      if contains line (58 ∷ [])
      then elim (find_param param_names 0 line) [
        | none ↦ attribs
        | some i ↦
            set attribs i (some (elim (to_int (second_part line)) [ none ↦ negsuc 0 | some n ↦ n ]))
      ]
      else attribs

  -- The loop of the constructor over a file that exists, which ends at the first empty line.
  unfoldable pub read_lines : List (List ℕ) → List (Option ℤ) → List (Option ℤ)
  read_lines [] attribs = attribs
  read_lines ([] ∷ lines) attribs = attribs
  read_lines ((c ∷ cs) ∷ lines) attribs = read_lines lines (read_line (c ∷ cs) attribs)

-- `getAttribute`; `none` reads what is not set, or the place behind the array, which the test lets through.
unfoldable pub get_attribute : List (Option ℤ) → ℤ → Option ℤ
get_attribute attribs (negsuc n) = some (negsuc 0)
get_attribute attribs (pos n) = if ltb 5 n then some (negsuc 0) else unwrap (get_elem? attribs n)
  where
    unwrap : Option (Option ℤ) → Option ℤ
    unwrap none = none
    unwrap (some o) = o
