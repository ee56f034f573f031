-- ===== src/Plugins/Names.antt =====
-- `setName` and `getName` of the plugins: `char name[256]` of `interface_t`, filled by `strncpy`. A text is its bytes, none
-- of which is 0.
use recd.Common.{
  ℕ, zero, suc, ◌≡◌, ◌≢◌, ◌≤◌, ◌<◌, refl, Option, none, some, List, [], ◌∷◌, length, arith,
}
use recd.Chain.{Kind, null_plugin, producer, consumer, md5, capture, dtmf, udp_server, recorder}
use recd.Recorder.Setup.{c_string}

-- `strncpy(iface.name, name, 256)`: the rest of the array is filled with zeros.
unfoldable pub strncpy : ℕ → List ℕ → List ℕ
strncpy zero name = []
strncpy (suc n) [] = 0 ∷ strncpy n []
strncpy (suc n) (c ∷ name) = c ∷ strncpy n name

abbrev pub set_name : List ℕ → List ℕ
set_name name = strncpy 256 name

-- `none` for the DTMF plugin is the call of itself that never ends.
unfoldable pub get_name : Kind → List ℕ → Option (List ℕ)
get_name dtmf name = none
get_name k name = c_string name

abbrev pub IsText : List ℕ → Type 0
IsText [] = Unit {0}
IsText (c ∷ cs) = (c ≢ 0) × IsText cs

c_string-strncpy :
    (n : ℕ) (name : List ℕ) → IsText name → length name < n → c_string (strncpy n name) ≡ some name
unfolding c_string strncpy
c_string-strncpy zero name v h = absurd (omega arith)
c_string-strncpy (suc n) [] v h = refl
c_string-strncpy (suc n) (zero ∷ name) v h = absurd (v.0 refl)
c_string-strncpy (suc n) (suc c ∷ name) v h = rw (c_string-strncpy n name v.1 (omega arith)) refl

c_string-strncpy_long :
    (n : ℕ) (name : List ℕ) → IsText name → n ≤ length name → c_string (strncpy n name) ≡ none
unfolding c_string strncpy
c_string-strncpy_long zero name v h = refl
c_string-strncpy_long (suc n) [] v h = absurd (omega arith)
c_string-strncpy_long (suc n) (zero ∷ name) v h = absurd (v.0 refl)
c_string-strncpy_long (suc n) (suc c ∷ name) v h =
    rw (c_string-strncpy_long n name v.1 (omega arith)) refl

-- The name that a plugin was given is read again, as long as it is shorter than the array; a longer one is read beyond the
-- array.
pub get_name-set_name :
    (k : Kind) (name : List ℕ)
    → k ≢ dtmf
    → IsText name
    → (length name < 256 → get_name k (set_name name) ≡ some name)
      × (256 ≤ length name → get_name k (set_name name) ≡ none)
unfolding get_name
get_name-set_name null_plugin name d v =
    (c_string-strncpy 256 name v, c_string-strncpy_long 256 name v)
get_name-set_name producer name d v =
    (c_string-strncpy 256 name v, c_string-strncpy_long 256 name v)
get_name-set_name consumer name d v =
    (c_string-strncpy 256 name v, c_string-strncpy_long 256 name v)
get_name-set_name md5 name d v = (c_string-strncpy 256 name v, c_string-strncpy_long 256 name v)
get_name-set_name capture name d v = (c_string-strncpy 256 name v, c_string-strncpy_long 256 name v)
get_name-set_name udp_server name d v =
    (c_string-strncpy 256 name v, c_string-strncpy_long 256 name v)
get_name-set_name recorder name d v =
    (c_string-strncpy 256 name v, c_string-strncpy_long 256 name v)
get_name-set_name dtmf name d v = absurd (d refl)
