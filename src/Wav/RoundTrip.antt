-- ===== src/Wav/RoundTrip.antt =====
-- A WAV file read back: the reader of this file looks at the offsets of the format.
use recd.Common.{
  ℕ, zero, suc, ◌+◌, ◌*◌, ◌/◌, ◌%◌, ◌^◌, ◌≡◌, ◌<◌, refl, ap, ◌∙◌, true, Option, none, some, List,
  [], ◌∷◌, ◌++◌, arith, length, drop, get_or, ◌>>=◌,
}
use recd.Frame.{AllBelow}
use recd.Wav.{
  WavHdr, hdr_middle, hdr_bytes, sample_bytes, File, Wav, closed_file, open_wav, close, setup_wave,
}
use recd.Wav.Recording.{
  open_wav-IsRecording, write_all, write_all-IsRecording, close-IsRecording, concat,
}
use recd.Wav.Growth.{file, with_lengths}

-- A number read at an offset, its low byte first.
abbrev pub u16_at : List ℕ → ℕ → ℕ
u16_at bs i = get_or bs i 0 + 256 * get_or bs (i + 1) 0

abbrev pub u32_at : List ℕ → ℕ → ℕ
u32_at bs i = u16_at bs i + 65536 * u16_at bs (i + 2)

pub samples_at : ℕ → List ℕ → Option (List ℕ)
samples_at zero bs = some []
samples_at (suc n) (lo ∷ hi ∷ bs) = samples_at n bs >>= λ ss. some ((lo + 256 * hi) ∷ ss)
samples_at (suc n) (lo ∷ []) = none
samples_at (suc n) [] = none

-- The reader: the header at its offsets, and as many samples as the data length says.
pub read_wav : List ℕ → Option (WavHdr × List ℕ)
read_wav bs = samples_at (u32_at bs 40 / 2) (drop 44 bs) >>= λ ss. some (hdr, ss)
  where
    hdr : WavHdr
    hdr = record {
      riff_len = u32_at bs 4;
      fmt_len = u32_at bs 16;
      audio_format = u16_at bs 20;
      num_channels = u16_at bs 22;
      sample_rate = u32_at bs 24;
      byte_rate = u32_at bs 28;
      block_align = u16_at bs 32;
      bits_per_sample = u16_at bs 34;
      data_len = u32_at bs 40;
    }

-- The fields fit in their types.
pub record IsHdr (h : WavHdr) : Type 0 where
  pub riff_u32 : h.riff_len < 2 ^ 32
  pub fmt_u32 : h.fmt_len < 2 ^ 32
  pub format_u16 : h.audio_format < 2 ^ 16
  pub channels_u16 : h.num_channels < 2 ^ 16
  pub rate_u32 : h.sample_rate < 2 ^ 32
  pub byte_rate_u32 : h.byte_rate < 2 ^ 32
  pub align_u16 : h.block_align < 2 ^ 16
  pub bits_u16 : h.bits_per_sample < 2 ^ 16
  pub data_u32 : h.data_len < 2 ^ 32

samples_at_lem :
    (n : ℕ) (ss : List ℕ)
    → n ≡ length ss
    → AllBelow (2 ^ 16) ss
    → samples_at n (sample_bytes ss) ≡ some ss
unfolding samples_at
samples_at_lem zero [] e h = refl
samples_at_lem zero (s ∷ ss) e h = absurd (omega (arith, e))
samples_at_lem (suc n) [] e h = absurd (omega (arith, e))
samples_at_lem (suc n) (s ∷ ss) e h =
    rw (samples_at_lem n ss (omega (arith, e)) h.1) (ap (λ x. some (x ∷ ss)) (omega (arith, h.0)))

u16_le : (n : ℕ) → n < 2 ^ 16 → n % 256 + 256 * (n / 256 % 256) ≡ n
u16_le n h = omega arith

u32_le :
    (n : ℕ)
    → n < 2 ^ 32
    → n % 256 + 256 * (n / 256 % 256) + 65536 * (n / 65536 % 256 + 256 * (n / 16777216 % 256)) ≡ n
u32_le n h = omega arith

read_wav_lem :
    (h : WavHdr) (ss : List ℕ)
    → IsHdr h
    → h.data_len ≡ 2 * length ss
    → AllBelow (2 ^ 16) ss
    → read_wav (hdr_bytes h ++ sample_bytes ss) ≡ some (h, ss)
unfolding read_wav hdr_middle
read_wav_lem h ss v e b =
    rw
      (
        u32_le h.riff_len v.riff_u32,
        u32_le h.fmt_len v.fmt_u32,
        u16_le h.audio_format v.format_u16,
        u16_le h.num_channels v.channels_u16,
        u32_le h.sample_rate v.rate_u32,
        u32_le h.byte_rate v.byte_rate_u32,
        u16_le h.block_align v.align_u16,
        u16_le h.bits_per_sample v.bits_u16,
        u32_le h.data_len v.data_u32,
        samples_at_lem (h.data_len / 2) ss (omega (arith, e)) b,
      )
      refl

header-open_wav :
    (w : Wav) (slot sps bps riff fmt audio chans : ℕ)
    → (open_wav true (setup_wave w sps bps riff fmt audio chans) slot).0.header
      ≡ (setup_wave w sps bps riff fmt audio chans).header
unfolding open_wav setup_wave
header-open_wav w slot sps bps riff fmt audio chans = refl

-- What `close` leaves in the file.
image : WavHdr → ℕ → ℕ → List ℕ → List ℕ
image h riff data_ ss = hdr_bytes (with_lengths h riff data_) ++ sample_bytes ss

read_wav-image :
    (h : WavHdr) (ss : List ℕ)
    → IsHdr (with_lengths h (2 * length ss + 36) (2 * length ss))
    → AllBelow (2 ^ 16) ss
    → 2 * length ss + 44 < 2 ^ 32
    → read_wav (image h ((2 * length ss + 36) % 2 ^ 32) (2 * length ss % 2 ^ 32) ss)
      ≡ some (with_lengths h (2 * length ss + 36) (2 * length ss), ss)
unfolding image
read_wav-image h ss v b short =
    ap (λ n. read_wav (image h n (2 * length ss % 2 ^ 32) ss)) {x = (2 * length ss + 36) % 2 ^ 32}
      {y = 2 * length ss + 36} (omega arith)
    ∙ ap (λ n. read_wav (image h (2 * length ss + 36) n ss)) {x = 2 * length ss % 2 ^ 32}
        {y = 2 * length ss} (omega arith)
    ∙ read_wav_lem (with_lengths h (2 * length ss + 36) (2 * length ss)) ss v refl b

pub record IsParams (samples_per_sec fmt_len audio_fmt chann_cnt : ℕ) : Type 0 where
  pub rate_u32 : samples_per_sec < 2 ^ 32
  pub fmt_u32 : fmt_len < 2 ^ 32
  pub format_u16 : audio_fmt < 2 ^ 16
  pub channels_u16 : chann_cnt < 2 ^ 16

-- A file that is set up, opened, written to by any number of calls and closed reads back as the samples of
-- all the calls, in order, under the header that was set up, with the number of bytes of the samples as data length
-- and 36 more as RIFF length; every step of it succeeds. The file is shorter than 2 ^ 32 bytes.
pub read_wav-close :
    (w : Wav) (slot samples_per_sec bits_per_sec riff_len fmt_len audio_fmt chann_cnt : ℕ)
    (bs : List (List ℕ))
    → IsParams samples_per_sec fmt_len audio_fmt chann_cnt
    → AllBelow (2 ^ 16) (concat bs)
    → 2 * length (concat bs) + 44 < 2 ^ 32
    → let w0 = setup_wave w samples_per_sec bits_per_sec riff_len fmt_len audio_fmt chann_cnt in
      let bytes = 2 * length (concat bs) in
      (w1 : Wav) × (w2 : Wav) × (f : File) × (write_all (open_wav true w0 slot).0 bs ≡ some w1)
      × (close w1 ≡ some w2)
      × (w2.m_file ≡ closed_file f)
      × (read_wav f.bytes ≡ some (with_lengths w0.header (bytes + 36) bytes, concat bs))
unfolding setup_wave image
read_wav-close w slot sps bps riff fmt audio chans bs p all short =
    let (w1, e1, h1, m1, v1) =
      write_all-IsRecording bs (open_wav true w0 slot).0 [] (open_wav-IsRecording w0 slot) in
    let (w2, e2, o2, c2) = close-IsRecording w1 (concat bs) v1 in
    (
      w1,
      w2,
      file
          (image w1.header ((2 * length (concat bs) + 36) % 2 ^ 32)
            (2 * length (concat bs) % 2 ^ 32) (concat bs))
          8,
      e1,
      e2,
      c2,
      rw (h1 ∙ header-open_wav w slot sps bps riff fmt audio chans)
          (read_wav-image w0.header (concat bs) fits all short),
    )
  where
    w0 : Wav
    w0 = setup_wave w sps bps riff fmt audio chans

    fits : IsHdr (with_lengths w0.header (2 * length (concat bs) + 36) (2 * length (concat bs)))
    fits = record {
      riff_u32 = omega arith;
      fmt_u32 = p.fmt_u32;
      format_u16 = p.format_u16;
      channels_u16 = p.channels_u16;
      rate_u32 = p.rate_u32;
      byte_rate_u32 = omega arith;
      align_u16 = omega arith;
      bits_u16 = omega arith;
      data_u32 = omega arith;
    }
