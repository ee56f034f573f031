-- ===== src/Wav/Sizes.antt =====
-- The two sizes that an object of utils/wav-writer.cpp knows: the position in its file, and `m_maxSize`.
use recd.Common.{
  ℕ, ◌+◌, ◌*◌, ◌%◌, ◌^◌, ◌≡◌, ◌<◌, ap, ◌∙◌, true, some, List, [], arith, length, Bool-cases, inl,
  inr,
}
use recd.Wav.{Wav, setup_wave, open_wav, get_file_size, sample_bytes}
use recd.Wav.Growth.{length-hdr_bytes}
use recd.Wav.Recording.{
  IsRecording, open_wav-IsRecording, write_all, write_all-IsRecording, concat, length-sample_bytes,
}

pub get_file_size-IsRecording :
    (w : Wav) (ss : List ℕ) → IsRecording w ss → get_file_size w ≡ some (2 * length ss + 44)
unfolding get_file_size
get_file_size-IsRecording w ss v = rw v.content (
    ap some
      (length-hdr_bytes w.header (sample_bytes ss) ∙ ap (λ n. n + 44) (length-sample_bytes ss)))

max_size-open_wav : (w : Wav) (slot : ℕ) → w.max_size ≡ 0 → (open_wav true w slot).0.max_size ≡ 44
unfolding open_wav setup_wave
max_size-open_wav w slot h = elim (Bool-cases w.is_setup) [
  | inl known ↦ rw known (omega arith)
  | inr unknown ↦ rw unknown (omega arith)
]

-- After a new object has been opened and written to, `getFileSize` is the length of the file in bytes, two for
-- each sample and 44 for the header, while `m_maxSize`, which `write` returns, has counted one for each sample.
pub get_file_size-write_all :
    (w : Wav) (slot : ℕ) (bs : List (List ℕ))
    → w.max_size ≡ 0
    → length (concat bs) + 44 < 2 ^ 63
    → (w1 : Wav) × (write_all (open_wav true w slot).0 bs ≡ some w1)
      × (get_file_size w1 ≡ some (2 * length (concat bs) + 44))
      × (w1.max_size % 2 ^ 64 ≡ length (concat bs) + 44)
get_file_size-write_all w slot bs h short =
    let (w1, e1, h1, m1, v1) =
      write_all-IsRecording bs (open_wav true w slot).0 [] (open_wav-IsRecording w slot) in
    (
      w1,
      e1,
      get_file_size-IsRecording w1 (concat bs) v1,
      omega (arith, m1, max_size-open_wav w slot h),
    )
