-- ===== src/Frame/Checksum.antt =====
-- What the longitudinal redundancy check of utils/types.cpp detects, and what it does not read.
use Prim.Native.Nat.{bit_and}
use recd.Common.{
  ℕ, zero, suc, ◌+◌, ◌-◌, ◌/◌, ◌%◌, ◌^◌, ◌≡◌, ◌≢◌, ◌<◌, refl, sym, ap, ◌∙◌, Bool, true, ◌&&◌, List,
  [], ◌∷◌, ◌++◌, arith, ◌==◌, ==_iff, take,
}
use recd.Frame.{
  Frame, IsFrame, AllBelow, counter_bytes, data_bytes, add_bytes, complement, checksum_lrc,
  gen_checksum_lrc, covered,
}

-- A test that holds of every byte up to a bound.
byte_table : (ℕ → Bool) → ℕ → Bool
byte_table test zero = true
byte_table test (suc bound) = byte_table test bound && test bound

byte_table-at :
    (test : ℕ → Bool) (bound byte : ℕ)
    → byte < bound
    → byte_table test bound ≡ true
    → test byte ≡ true
unfolding byte_table
byte_table-at test zero byte below table = absurd (omega arith)
byte_table-at test (suc bound) byte below table = ground (arith, byte_table-at test bound byte)

abbrev pub sum : List ℕ → ℕ
sum [] = 0
sum (x ∷ xs) = x + sum xs

abbrev is_masked : ℕ → Bool
is_masked byte = bit_and byte 0xff == byte

all_masked : byte_table is_masked 256 ≡ true
unfolding byte_table
all_masked = refl

mask_byte : (byte : ℕ) → byte < 256 → bit_and byte 0xff ≡ byte
mask_byte byte below = (==_iff _ byte).0 (byte_table-at is_masked 256 byte below all_masked)

abbrev is_negated : ℕ → Bool
is_negated byte = complement byte == (256 - byte) % 256

all_negated : byte_table is_negated 256 ≡ true
unfolding byte_table complement
all_negated = refl

complement_lem : (byte : ℕ) → byte < 256 → complement byte ≡ (256 - byte) % 256
complement_lem byte below = (==_iff _ _).0 (byte_table-at is_negated 256 byte below all_negated)

add_bytes_lem :
    (c : ℕ) (ps : List ℕ) → c < 256 → AllBelow 256 ps → add_bytes c ps ≡ (c + sum ps) % 256
unfolding add_bytes
add_bytes_lem c [] h all = omega arith
add_bytes_lem c (p ∷ ps) h all =
    rw (mask_byte p all.0) (omega (arith, add_bytes_lem ((c + p) % 256) ps (omega arith) all.1))

add_bytes-append : (c : ℕ) (ps qs : List ℕ) → add_bytes c (ps ++ qs) ≡ add_bytes (add_bytes c ps) qs
unfolding add_bytes
add_bytes-append c [] qs = refl
add_bytes-append c (p ∷ ps) qs = add_bytes-append ((c + bit_and p 0xff) % 256) ps qs

checksum-covered : (f : Frame) → checksum_lrc f ≡ complement (add_bytes 0 (covered f))
unfolding checksum_lrc
checksum-covered f = rw (
  add_bytes-append 0 (counter_bytes f.counter)
      (take 64 f.null_bytes ++ take 512 (data_bytes f.data_)),
  add_bytes-append (add_bytes 0 (counter_bytes f.counter)) (take 64 f.null_bytes)
      (take 512 (data_bytes f.data_)),
)

sum-append : (xs ys : List ℕ) → sum (xs ++ ys) ≡ sum xs + sum ys
sum-append [] ys = omega arith
sum-append (x ∷ xs) ys = omega (arith, sum-append xs ys)

AllBelow-append : (n : ℕ) (xs ys : List ℕ) → AllBelow n xs → AllBelow n ys → AllBelow n (xs ++ ys)
AllBelow-append n [] ys h k = k
AllBelow-append n (x ∷ xs) ys h k = (h.0, AllBelow-append n xs ys h.1 k)

AllBelow-take : (n k : ℕ) (xs : List ℕ) → AllBelow n xs → AllBelow n (take k xs)
AllBelow-take n zero xs h = tt
AllBelow-take n (suc k) [] h = tt
AllBelow-take n (suc k) (x ∷ xs) h = (h.0, AllBelow-take n k xs h.1)

data_bytes-AllBelow : (ss : List ℕ) → AllBelow (2 ^ 16) ss → AllBelow 256 (data_bytes ss)
data_bytes-AllBelow [] h = tt
data_bytes-AllBelow (s ∷ ss) h = (omega arith, (omega (arith, h.0), data_bytes-AllBelow ss h.1))

covered-AllBelow : (f : Frame) → IsFrame f → AllBelow 256 (covered f)
covered-AllBelow f v = (omega arith, (omega arith, (omega arith, (omega arith, rest))))
  where
    rest : AllBelow 256 (take 64 f.null_bytes ++ take 512 (data_bytes f.data_))
    rest =
        AllBelow-append 256 (take 64 f.null_bytes) (take 512 (data_bytes f.data_))
          (AllBelow-take 256 64 f.null_bytes v.null_u8)
          (AllBelow-take 256 512 (data_bytes f.data_) (data_bytes-AllBelow f.data_ v.sample_i16))

checksum-sum : (f : Frame) → IsFrame f → checksum_lrc f ≡ (256 - sum (covered f) % 256) % 256
checksum-sum f v =
    checksum-covered f
    ∙ ap complement (add_bytes_lem 0 (covered f) (omega arith) (covered-AllBelow f v))
    ∙ complement_lem ((0 + sum (covered f)) % 256) (omega arith)
    ∙ omega arith

-- The redundancy check of a frame: the bytes of the counter, the null bytes and the first 512 bytes
-- of the samples, added up with the checksum of `checksum_lrc`, give 0 modulo 256.
pub checksum_lrc-cancels : (f : Frame) → IsFrame f → (sum (covered f) + checksum_lrc f) % 256 ≡ 0
checksum_lrc-cancels f v = omega (arith, checksum-sum f v)

-- A frame that `gen_checksum_lrc` has stamped: the bytes that its loops read and the checksum that it stores add up to 0
-- modulo 256, and no other byte in the checksum's place does so. It returns the stored value, changes no other field, and the
-- receiver's `checksum_lrc` of the stamped frame is that value.
pub gen_checksum_lrc_lem :
    (f : Frame)
    → IsFrame f
    → let (g, stamp) = gen_checksum_lrc f in
      ((sum (covered f) + g.checksum) % 256 ≡ 0)
      × ((c : ℕ) → c < 256 → (sum (covered f) + c) % 256 ≡ 0 → c ≡ g.checksum)
      × (g ≡ record f { checksum = stamp })
      × (checksum_lrc g ≡ stamp)
unfolding gen_checksum_lrc checksum_lrc
gen_checksum_lrc_lem f v =
    (checksum_lrc-cancels f v, λ c h e. omega (arith, checksum-sum f v, e, h), refl, refl)

sum-changed :
    (xs ys : List ℕ) (a b : ℕ)
    → a < 256
    → b < 256
    → a ≢ b
    → sum (xs ++ (a ∷ ys)) % 256 ≢ sum (xs ++ (b ∷ ys)) % 256
sum-changed xs ys a b ha hb ne = omega (arith, sum-append xs (a ∷ ys), sum-append xs (b ∷ ys))

-- Of two frames that differ in exactly one byte that the loops read, the checksums differ.
pub checksum_lrc-detects :
    (f g : Frame) (xs ys : List ℕ) (a b : ℕ)
    → IsFrame f
    → IsFrame g
    → covered f ≡ xs ++ (a ∷ ys)
    → covered g ≡ xs ++ (b ∷ ys)
    → a < 256
    → b < 256
    → a ≢ b
    → checksum_lrc f ≢ checksum_lrc g
checksum_lrc-detects f g xs ys a b vf vg ef eg ha hb ne = omega (
  arith,
  checksum-sum f vf,
  checksum-sum g vg,
  ap sum ef,
  ap sum eg,
  sum-changed xs ys a b ha hb ne,
)

take-nil : (n : ℕ) → take {A = ℕ} n [] ≡ []
take-nil zero = refl
take-nil (suc n) = refl

add-suc-suc : (n : ℕ) → suc n + suc n ≡ suc (suc (n + n))
add-suc-suc n = omega arith

take-data_bytes : (n : ℕ) (ss : List ℕ) → take (n + n) (data_bytes ss) ≡ data_bytes (take n ss)
take-data_bytes zero ss = refl
take-data_bytes (suc n) [] = take-nil (suc n + suc n)
take-data_bytes (suc n) (s ∷ ss) =
    rw (add-suc-suc n) (ap (λ bs. s % 256 ∷ s / 256 ∷ bs) (take-data_bytes n ss))

-- The third loop counts samples but steps over bytes: the samples from the 257th on are not covered,
-- so frames that agree elsewhere have one checksum, whatever those samples are.
pub checksum_lrc_ignores_tail :
    (f g : Frame)
    → f.counter ≡ g.counter
    → f.null_bytes ≡ g.null_bytes
    → take 256 f.data_ ≡ take 256 g.data_
    → checksum_lrc f ≡ checksum_lrc g
checksum_lrc_ignores_tail f g ec en ed =
    checksum-covered f ∙ ap (λ bs. complement (add_bytes 0 bs)) same ∙ sym (checksum-covered g)
  where
    same : covered f ≡ covered g
    same = rw (take-data_bytes 256 f.data_, take-data_bytes 256 g.data_, ec, en, ed)
