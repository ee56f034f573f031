-- ===== src/Wav/Growth.antt =====
-- How the file of utils/wav-writer.cpp grows: what `open`, `write` and `close` leave in it.
use recd.Common.{
  ℕ, ◌+◌, ◌-◌, ◌%◌, ◌^◌, ◌≡◌, refl, sym, ap, ◌∙◌, List, [], ◌∷◌, ◌++◌, arith, length, take,
  nothing_over, take_all, take_append, drop_append, append-nil, append_assoc, length-append,
}
use recd.Wav.{WavHdr, hdr_front, hdr_middle, hdr_bytes, le32, File, fwrite, finish}

-- A write of the bytes `bs` over as many bytes `ys`.
fwrite_over :
    (xs ys zs bs : List ℕ) (p : ℕ)
    → p ≡ length xs
    → length bs ≡ length ys
    → fwrite (record { bytes = xs ++ (ys ++ zs); pos = p }) bs
      ≡ record { bytes = xs ++ (bs ++ zs); pos = p + length bs }
unfolding fwrite
fwrite_over xs ys zs bs p h e =
    rw
      (
        take_append p xs (ys ++ zs) h,
        inside,
        sym (append_assoc xs ys zs),
        drop_append (p + length bs) (xs ++ ys) zs (omega (arith, length-append xs ys)),
      )
      refl
  where
    inside : p - length (xs ++ (ys ++ zs)) ≡ 0
    inside = omega (arith, length-append xs (ys ++ zs))

-- A file with the position at its end, as long as nothing is written back.
abbrev pub at_end : List ℕ → File
at_end bs = record { bytes = bs; pos = length bs }

abbrev pub file : List ℕ → ℕ → File
file bs p = record { bytes = bs; pos = p }

pub fwrite-at_end : (xs bs : List ℕ) → fwrite (at_end xs) bs ≡ at_end (xs ++ bs)
unfolding fwrite
fwrite-at_end xs bs =
    rw
      (
        all,
        gap,
        nothing_over (length xs + length bs) xs (omega arith),
        append-nil bs,
        length-append xs bs,
      )
      refl
  where
    all : take (length xs) xs ≡ xs
    all = ap (take (length xs)) (sym (append-nil xs)) ∙ take_all xs []

    gap : length xs - length xs ≡ 0
    gap = omega arith

length-hdr_middle : (h : WavHdr) → length (hdr_middle h) ≡ 32
unfolding hdr_middle
length-hdr_middle h = refl

pub length-hdr_bytes :
    (h : WavHdr) (rest : List ℕ) → length (hdr_bytes h ++ rest) ≡ length rest + 44
length-hdr_bytes h rest = omega (
  arith,
  length-append (hdr_bytes h) rest,
  length-append (hdr_middle h) (le32 h.data_len),
  length-hdr_middle h,
)

-- The two lengths of a header replaced.
abbrev pub with_lengths : WavHdr → ℕ → ℕ → WavHdr
with_lengths h riff data_ = record h { riff_len = riff; data_len = data_ }

pub finish-at_end :
    (h : WavHdr) (rest : List ℕ)
    → finish (at_end (hdr_bytes h ++ rest))
      ≡ file
          (hdr_bytes (with_lengths h ((length rest + 36) % 2 ^ 32) (length rest % 2 ^ 32)) ++ rest)
          8
unfolding finish hdr_middle
finish-at_end h rest =
    rw
      (
        length-hdr_bytes h rest,
        fwrite_over (hdr_front h) (le32 h.data_len) rest (le32 n) 40 refl refl,
        fwrite_over (82 ∷ 73 ∷ 70 ∷ 70 ∷ []) (le32 h.riff_len) (hdr_middle h ++ (le32 n ++ rest))
            (le32 m) 4 refl refl,
        data_n,
        riff_n,
      )
      refl
  where
    n : ℕ
    n = (length rest + 44 + 2 ^ 32 - 44) % 2 ^ 32

    m : ℕ
    m = (length rest + 44 + 2 ^ 32 - 8) % 2 ^ 32

    data_n : n ≡ length rest % 2 ^ 32
    data_n = omega arith

    riff_n : m ≡ (length rest + 36) % 2 ^ 32
    riff_n = omega arith
