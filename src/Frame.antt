-- ===== src/Frame.antt =====
-- The frame that the hardware sends (utils/types.h) and its checksum (utils/types.cpp).
-- A field of w bits is a number below 2 ^ w; an int16_t is its 16-bit pattern. `data` has 512 entries and
-- `null_bytes` 64, which `IsFrame` states.
pub mod Checksum
mod Tests
use Prim.Native.Nat.{bit_and, bit_xor}
use recd.Common.{ℕ, zero, suc, ◌+◌, ◌/◌, ◌%◌, ◌^◌, ◌≡◌, ◌<◌, List, [], ◌∷◌, ◌++◌, length, take}

-- `struct frame_data_t`
pub record Frame : Type 0 where
  pub counter : ℕ
  pub data_ : List ℕ
  pub null_bytes : List ℕ
  pub checksum : ℕ

-- Every entry of a list is below a bound.
abbrev pub AllBelow : ℕ → List ℕ → Type 0
AllBelow n [] = Unit {0}
AllBelow n (x ∷ xs) = (x < n) × AllBelow n xs

pub record IsFrame (f : Frame) : Type 0 where
  pub counter_u32 : f.counter < 2 ^ 32
  pub samples : length f.data_ ≡ 512
  pub sample_i16 : AllBelow (2 ^ 16) f.data_
  pub nulls : length f.null_bytes ≡ 64
  pub null_u8 : AllBelow 256 f.null_bytes

-- The four bytes at `(uint8_t*)&fd->counter`, on a little-endian machine.
abbrev pub counter_bytes : ℕ → List ℕ
counter_bytes c = (c % 256) ∷ (c / 256 % 256) ∷ (c / 65536 % 256) ∷ (c / 16777216 % 256) ∷ []

-- The bytes at `(uint8_t*)&fd->data[0]`.
abbrev pub data_bytes : List ℕ → List ℕ
data_bytes [] = []
data_bytes (s ∷ ss) = (s % 256) ∷ (s / 256) ∷ data_bytes ss

-- `for (i = 0; i < n; i++) checksum += p[i] & 0xff;` over the `n` bytes of the list, in a uint8_t.
pub add_bytes : ℕ → List ℕ → ℕ
add_bytes checksum [] = checksum
add_bytes checksum (p ∷ ps) = add_bytes ((checksum + bit_and p 0xff) % 256) ps

-- `((checksum ^ 0xff)+1) & 0xff`
pub complement : ℕ → ℕ
complement checksum = bit_and (bit_xor checksum 0xff + 1) 0xff

-- The third loop runs `sizeof(fd->data)/sizeof(fd->data[0])` = 512 times over single bytes.
pub checksum_lrc : Frame → ℕ
checksum_lrc fd =
    let after_counter = add_bytes 0 (counter_bytes fd.counter) in
    let after_nulls = add_bytes after_counter (take 64 fd.null_bytes) in
    complement (add_bytes after_nulls (take 512 (data_bytes fd.data_)))

-- The same loops, and the result stored in the frame: the new frame and the value returned.
pub gen_checksum_lrc : Frame → Frame × ℕ
gen_checksum_lrc fd =
    let after_counter = add_bytes 0 (counter_bytes fd.counter) in
    let after_nulls = add_bytes after_counter (take 64 fd.null_bytes) in
    let sum = complement (add_bytes after_nulls (take 512 (data_bytes fd.data_))) in
    (record fd { checksum = sum }, sum)

-- The bytes that the three loops read.
abbrev pub covered : Frame → List ℕ
covered fd = counter_bytes fd.counter ++ take 64 fd.null_bytes ++ take 512 (data_bytes fd.data_)
