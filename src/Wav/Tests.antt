-- ===== src/Wav/Tests.antt =====
-- A WAV file of two writes.
use recd.Common.{ℕ, ◌^◌, ◌≡◌, refl, some, List, [], ◌∷◌, arith, false, true, ◌-◌, ◌%◌}
use recd.Wav.{Wav, WavHdr, null_file, setup_wave, open_wav, close, get_file_size, closed_file, File}
use recd.Wav.Growth.{with_lengths}
use recd.Wav.Recording.{write_all}
use recd.Wav.RoundTrip.{read_wav, read_wav-close}
use recd.Wav.Sizes.{get_file_size-write_all}

abbrev garbage : WavHdr
garbage = record {
  riff_len = 1;
  fmt_len = 2;
  audio_format = 3;
  num_channels = 4;
  sample_rate = 5;
  byte_rate = 6;
  block_align = 7;
  bits_per_sample = 8;
  data_len = 9;
}

abbrev fresh : Wav
fresh = record {
  paused = false;
  m_file = null_file;
  header = garbage;
  filename = 97 ∷ [];
  is_setup = false;
  is_opened = false;
  max_size = 0;
  slot = 2 ^ 32 - 1;
}

abbrev blocks : List (List ℕ)
blocks = (1 ∷ 40000 ∷ []) ∷ (300 ∷ []) ∷ []

read_wav-close_example :
    (w1 : Wav) × (w2 : Wav) × (f : File) × (write_all
        (open_wav true (setup_wave fresh 8000 16 0 16 1 1) 3).0
        blocks
      ≡ some w1)
    × (close w1 ≡ some w2)
    × (w2.m_file ≡ closed_file f)
    × (read_wav f.bytes
        ≡ some (with_lengths (setup_wave fresh 8000 16 0 16 1 1).header 42 6, 1 ∷ 40000 ∷ 300 ∷ []))
read_wav-close_example =
    read_wav-close fresh 3 8000 16 0 16 1 1 blocks
      (record {
        rate_u32 = omega arith;
        fmt_u32 = omega arith;
        format_u16 = omega arith;
        channels_u16 = omega arith;
      })
      (omega arith, (omega arith, (omega arith, tt))) (omega arith)

get_file_size-write_all_example :
    (w1 : Wav) × (write_all (open_wav true fresh 0).0 blocks ≡ some w1)
    × (get_file_size w1 ≡ some 50)
    × (w1.max_size % 2 ^ 64 ≡ 47)
get_file_size-write_all_example = get_file_size-write_all fresh 0 blocks refl (omega arith)
