-- ===== src/Recorder/Names.antt =====
-- The names of the files that recorder/recorder.cpp makes, which go into the 64 bytes of a file object.
use recd.Common.{
  ℕ, zero, suc, ◌+◌, ◌-◌, ◌/◌, ◌%◌, ◌^◌, ◌<◌, ◌≤◌, List, [], ◌∷◌, ◌++◌, arith, length,
  length-append, length-take_le, ltb, Bool-cases, inl, inr,
}
use recd.Recorder.{decimal, int_text, name_after, file_name}

length-decimal : (places n : ℕ) → length (decimal places n) ≤ places
length-decimal zero n = omega arith
length-decimal (suc places) n = elim (Bool-cases (ltb n 10)) [
  | inl small ↦ rw small (omega arith)
  | inr large ↦ rw large (
      omega (
        arith,
        length-append (decimal places (n / 10)) ((48 + n % 10) ∷ []),
        length-decimal places (n / 10),
      ))
]

length-int_text : (n : ℕ) → length (int_text n) ≤ 11
unfolding int_text
length-int_text n = elim (Bool-cases (ltb n (2 ^ 31))) [
  | inl small ↦ rw small (omega (arith, length-decimal 10 n))
  | inr large ↦ rw large (omega (arith, length-decimal 10 (2 ^ 32 - n)))
]

pub length-name_after :
    (prefix : List ℕ) (slot uid : ℕ) (time : List ℕ)
    → length (name_after prefix slot uid time) ≤ length prefix + length time + 28
unfolding name_after
length-name_after prefix slot uid time = omega (
  arith,
  length-take_le 255 (prefix ++ (int_text slot ++ (45 ∷ int_text uid ++ (45 ∷ time ++ ending)))),
  length-append prefix (int_text slot ++ (45 ∷ int_text uid ++ (45 ∷ time ++ ending))),
  length-append (int_text slot) (45 ∷ int_text uid ++ (45 ∷ time ++ ending)),
  length-append (int_text uid) (45 ∷ time ++ ending),
  length-append time ending,
  length-int_text slot,
  length-int_text uid,
)
  where
    ending : List ℕ
    ending = 46 ∷ 119 ∷ 97 ∷ 118 ∷ []

-- A directory and a time that have less than 35 bytes together make a name that fits, whatever the slot and the
-- number of the file are.
pub length-file_name :
    (directory : List ℕ) (slot uid : ℕ) (time : List ℕ)
    → length directory + length time < 35
    → length (file_name directory slot uid time) < 64
unfolding file_name
length-file_name [] slot uid time h = omega (arith, length-name_after [] slot uid time)
length-file_name (c ∷ cs) slot uid time h =
    omega (arith, length-name_after (c ∷ cs ++ (47 ∷ [])) slot uid time, length-append cs (47 ∷ []))
