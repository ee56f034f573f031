-- ===== src/Wav.antt =====
-- utils::Wav of utils/wav-writer.cpp: a WAV file that is written sample by sample. A file is its bytes and the
-- position of the next access; a field of w bits is its bit pattern. `none` is a call on a FILE pointer that is
-- null or has been closed, or an access outside an array. Every write to an open file is taken to succeed.
pub mod Growth
pub mod Recording
pub mod RoundTrip
pub mod Sizes
mod Tests
use Prim.Native.Nat.{bit_and, bit_or}
use recd.Common.{
  ℕ, zero, suc, ◌+◌, ◌-◌, ◌*◌, ◌/◌, ◌%◌, ◌^◌, Bool, true, false, Option, none, some, List, [], ◌∷◌,
  ◌++◌, if◌then◌else◌, ltb, leb, length, take, drop, replicate, ◌>>=◌,
}

-- `struct wav_hdr_t` of utils/types.h, without its four tags.
pub record WavHdr : Type 0 where
  pub riff_len : ℕ
  pub fmt_len : ℕ
  pub audio_format : ℕ
  pub num_channels : ℕ
  pub sample_rate : ℕ
  pub byte_rate : ℕ
  pub block_align : ℕ
  pub bits_per_sample : ℕ
  pub data_len : ℕ

-- The two and four bytes of a number, on a little-endian machine.
abbrev pub le16 : ℕ → List ℕ
le16 n = n % 256 ∷ n / 256 % 256 ∷ []

abbrev pub le32 : ℕ → List ℕ
le32 n = n % 256 ∷ n / 256 % 256 ∷ n / 65536 % 256 ∷ n / 16777216 % 256 ∷ []

-- The 44 bytes of the packed struct, up to the lengths: "WAVE", "fmt " and "data" are the tags that `setupWave` stores.
unfoldable pub hdr_middle : WavHdr → List ℕ
hdr_middle h =
    87 ∷ 65 ∷ 86 ∷ 69 ∷ 102 ∷ 109 ∷ 116 ∷ 32 ∷ le32 h.fmt_len
    ++ (le16 h.audio_format
        ++ (le16 h.num_channels
            ++ (le32 h.sample_rate
                ++ (le32 h.byte_rate
                    ++ (le16 h.block_align
                        ++ (le16 h.bits_per_sample ++ (100 ∷ 97 ∷ 116 ∷ 97 ∷ [])))))))

-- "RIFF" and the first length before them.
abbrev pub hdr_front : WavHdr → List ℕ
hdr_front h = 82 ∷ 73 ∷ 70 ∷ 70 ∷ le32 h.riff_len ++ hdr_middle h

abbrev pub hdr_bytes : WavHdr → List ℕ
hdr_bytes h = hdr_front h ++ le32 h.data_len

abbrev pub sample_bytes : List ℕ → List ℕ
sample_bytes [] = []
sample_bytes (s ∷ ss) = s % 256 ∷ s / 256 % 256 ∷ sample_bytes ss

-- A FILE of the C library.
pub record File : Type 0 where
  pub bytes : List ℕ
  pub pos : ℕ

-- `fwrite` of these bytes: they overwrite what is at the position, and a gap before it reads as zeros.
unfoldable pub fwrite : File → List ℕ → File
fwrite f bs = record {
  bytes =
      take f.pos f.bytes
      ++ (replicate (f.pos - length f.bytes) 0 ++ (bs ++ drop (f.pos + length bs) f.bytes));
  pos = f.pos + length bs;
}

-- `fseek(f, offset, SEEK_SET)`
abbrev pub fseek : File → ℕ → File
fseek f offset = record f { pos = offset }

-- `m_file`: null, an open file, or a pointer that `fclose` has left behind, with what was written.
pub data Handle : Type 0 where
  null_file : Handle
  open_file closed_file : File → Handle

pub record Wav : Type 0 where
  pub paused : Bool
  pub m_file : Handle
  pub header : WavHdr
  pub filename : List ℕ
  pub is_setup : Bool
  pub is_opened : Bool
  pub max_size : ℕ
  pub slot : ℕ

-- The constructor, with what the header's memory holds; `strcpy` into `m_filename[64]`, the final 0 included.
unfoldable pub create : WavHdr → List ℕ → Option Wav
create garbage fname =
    if ltb (length fname) 64
    then some (record {
      paused = false;
      m_file = null_file;
      header = garbage;
      filename = fname;
      is_setup = false;
      is_opened = false;
      max_size = 0;
      slot = 2 ^ 32 - 1;
    })
    else none

pub pause : Wav → Wav
pause w = record w { paused = true }

pub resume : Wav → Wav
resume w = record w { paused = false }

-- `n / 8` of an int, which rounds towards 0.
unfoldable pub eighth : ℕ → ℕ
eighth n = if ltb n (2 ^ 31) then n / 8 else (2 ^ 32 - (2 ^ 32 - n) / 8) % 2 ^ 32

unfoldable pub setup_wave :
    Wav → (samples_per_sec bits_per_sec riff_len fmt_len audio_fmt chann_cnt : ℕ) → Wav
setup_wave w samples_per_sec bits_per_sec riff_len fmt_len audio_fmt chann_cnt = record w {
  header = record {
    riff_len = riff_len;
    fmt_len = fmt_len;
    audio_format = audio_fmt;
    num_channels = chann_cnt;
    sample_rate = samples_per_sec;
    byte_rate = samples_per_sec * eighth bits_per_sec % 2 ^ 32;
    block_align = eighth bits_per_sec % 2 ^ 16;
    bits_per_sample = bits_per_sec % 2 ^ 16;
    data_len = 0;
  };
  is_setup = true;
}

-- `setupWave()` with its default arguments.
abbrev pub setup_default : Wav → Wav
setup_default w = setup_wave w 8000 16 0 16 1 1

abbrev pub empty_file : File
empty_file = record { bytes = []; pos = 0 }

-- `open`, with whether `fopen(m_filename, "wb")` succeeds: the object and the result.
unfoldable pub open_wav : Bool → Wav → ℕ → Wav × Bool
open_wav fopen_ok w slot =
    if fopen_ok
    then (started (if w.is_setup then w else setup_default w), true)
    else (record w { slot = slot; m_file = null_file }, w.is_opened)
  where
    started : Wav → Wav
    started v = record v {
      slot = slot;
      m_file = open_file (fwrite empty_file (hdr_bytes v.header));
      max_size = (v.max_size + 44) % 2 ^ 64;
      is_opened = true;
    }

-- `ftell(m_file)`
unfoldable pub get_file_size : Wav → Option ℕ
get_file_size w = elim w.m_file [
  | null_file ↦ none
  | open_file f ↦ some f.pos
  | closed_file f ↦ none
]

-- The two lengths written back, and `fclose`.
unfoldable pub finish : File → File
finish f =
    let data_len = (f.pos + 2 ^ 32 - 44) % 2 ^ 32 in
    let riff_len = (f.pos + 2 ^ 32 - 8) % 2 ^ 32 in
    let g = fwrite (fseek f 40) (le32 data_len) in fwrite (fseek g 4) (le32 riff_len)

unfoldable pub close : Wav → Option Wav
close w =
    if w.is_opened
    then elim w.m_file [
      | null_file ↦ none
      | open_file f ↦ some (record w { m_file = closed_file (finish f); is_opened = false })
      | closed_file f ↦ none
    ]
    else some w

-- `write(data, len)`: the object, and `m_maxSize` as an int.
unfoldable pub write : Wav → List ℕ → ℕ → Option (Wav × ℕ)
write w data_ len = elim w.m_file [
  | null_file ↦ none
  | open_file f ↦ if leb len (length data_) then (some (written f)) else none
  | closed_file f ↦ none
]
  where
    size : ℕ
    size = (w.max_size + len) % 2 ^ 64

    written : File → Wav × ℕ
    written f = (
      record w { m_file = open_file (fwrite f (sample_bytes (take len data_))); max_size = size },
      size % 2 ^ 32,
    )

-- `write_hdr`: a header of its own at the position of the file.
unfoldable pub write_hdr : Wav → (spf bps rifflen fmtlen audfmt chans : ℕ) → Option Wav
write_hdr w spf bps rifflen fmtlen audfmt chans = elim w.m_file [
  | null_file ↦ none
  | open_file f ↦ some (record w { m_file = open_file (fwrite f (hdr_bytes hdr)) })
  | closed_file f ↦ none
]
  where
    hdr : WavHdr
    hdr = (setup_wave w spf bps rifflen fmtlen audfmt chans).header

-- `flip32` and `flip16` on bit patterns; the shift to the right of an int16_t that is negative fills in ones.
pub flip32 : ℕ → ℕ
flip32 val = bit_or (bit_and (val * 2 ^ 24 % 2 ^ 32) 0xff000000) (
    bit_or (bit_and (val * 2 ^ 8 % 2 ^ 32) 0x00ff0000)
      (bit_or (bit_and (val / 2 ^ 8) 0x0000ff00) (bit_and (val / 2 ^ 24) 0x000000ff)))

pub flip16 : ℕ → ℕ
flip16 val =
    let high = if ltb val (2 ^ 15) then val / 256 else 0xff00 + val / 256 in
    bit_or (val * 256 % 2 ^ 16) high
