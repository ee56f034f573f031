-- ===== src/Recorder/Tests.antt =====
-- A recorder with two channels, and a list of two entries for it.
use recd.Common.{
  ℕ, ◌≡◌, ◌<◌, ◌≤◌, refl, Bool, true, false, none, some, List, [], ◌∷◌, ◌++◌, ◌>>=◌, arith, length,
  replicate,
}
use recd.Config.{MPair}
use recd.Server.{SampleData}
use recd.Wav.{Wav, WavHdr, null_file, open_file, hdr_bytes, sample_bytes}
use recd.Wav.Growth.{at_end}
use recd.Recorder.{
  close_all, next_round, deinit, Recorder, WavParams, file_name, record_lists, run_round,
  hot_swap_files,
}
use recd.Recorder.Names.{length-name_after, length-file_name}
use recd.Recorder.Slots.{closed, recording, AllShow}
use recd.Recorder.Channels.{put_all, run_round-put_all}
use recd.Recorder.Setup.{init_max_chans, init_slots}
use recd.Recorder.Changes.{AllHold}
use recd.Recorder.Swap.{hot_swap_files_lem}
use recd.Recorder.Start.{init_slots_lem}
use recd.Recorder.Thread.{Turn, puts, wakes, all_happen, all_happen_lem}
use recd.Recorder.Stop.{AllComplete, Released, deinit_lem, next_round-deinit}

abbrev hdr : WavHdr
hdr = record {
  riff_len = 0;
  fmt_len = 0;
  audio_format = 0;
  num_channels = 0;
  sample_rate = 0;
  byte_rate = 0;
  block_align = 0;
  bits_per_sample = 0;
  data_len = 0;
}

abbrev idle_wav : Wav
idle_wav = record {
  paused = false;
  m_file = null_file;
  header = hdr;
  filename = 97 ∷ [];
  is_setup = true;
  is_opened = false;
  max_size = 0;
  slot = 0;
}

abbrev no_params : WavParams
no_params = record {
  samples_per_sec = 8000;
  bits_per_sec = 16;
  riff_len = 0;
  fmt_len = 16;
  audio_fmt = 1;
  chann_cnt = 1;
}

abbrev two : Recorder
two = record {
  wavs = some idle_wav ∷ some idle_wav ∷ replicate 126 none;
  max_chans = 2;
  size_based = false;
  max_file_size = 0;
  uid = 2;
  params = no_params;
  directory = 114 ∷ [];
  buffer = [];
  running = true;
  finished = [];
}

-- "12:00:00"
abbrev noon : ℕ → List ℕ
noon uid = 49 ∷ 50 ∷ 58 ∷ 48 ∷ 48 ∷ 58 ∷ 48 ∷ 48 ∷ []

abbrev opens : List ℕ → Bool
opens name = true

abbrev heard : ℕ → SampleData
heard n = record { signal = 1; samples = n ∷ n ∷ []; size = 2 }

abbrev quiet : SampleData
quiet = record { signal = 0; samples = 0 ∷ 0 ∷ []; size = 2 }

-- The first channel is heard three times, the second once.
abbrev lists : List (List SampleData)
lists = (heard 1 ∷ quiet ∷ []) ∷ (heard 2 ∷ heard 3 ∷ []) ∷ (heard 4 ∷ quiet ∷ []) ∷ []

length-file_name_applied : length (file_name (114 ∷ []) 3 4000000000 (noon 0)) < 64
length-file_name_applied = length-file_name (114 ∷ []) 3 4000000000 (noon 0) (omega arith)

run_round-put_all_applied :
    run_round opens noon hdr (put_all two lists)
    ≡ (run_round opens noon hdr two >>= λ r'. record_lists opens noon hdr r' lists)
run_round-put_all_applied = run_round-put_all opens noon hdr lists two

abbrev bare : Recorder
bare = record two { wavs = replicate 128 none }

abbrev asked : MPair
asked = record { type1 = "files"; type2 = "300" }

init_slots_lem_example :
    (0 < init_max_chans (λ t. some 300) (λ t. none) (λ t. none) (λ s. []) (λ s p. false) asked)
    × (init_max_chans (λ t. some 300) (λ t. none) (λ t. none) (λ s. []) (λ s p. false) asked ≤ 127)
    × (r' : Recorder) × (init_slots noon hdr (114 ∷ []) 1 no_params bare ≡ some r')
    × (r'.max_chans ≡ 1)
    × AllShow r'.wavs (closed ∷ [])
    × (r'.size_based ≡ false)
    × (r'.directory ≡ 114 ∷ [])
unfolding init_max_chans
init_slots_lem_example =
    init_slots_lem noon hdr (λ t. some 300) (λ t. none) (λ t. none) (λ s. []) (λ s p. false) asked
      (114 ∷ []) no_params bare refl
      (λ slot uid. omega (arith, length-name_after (114 ∷ []) slot uid (noon uid)))

-- The first file is open, with two samples.
abbrev busy_wav : Wav
busy_wav = record idle_wav {
  m_file = open_file (at_end (hdr_bytes hdr ++ sample_bytes (1 ∷ 2 ∷ [])));
  is_opened = true;
}

abbrev busy : Recorder
busy = record two { wavs = some busy_wav ∷ some idle_wav ∷ replicate 126 none }

hot_swap_files_lem_example :
    (r' : Recorder) × (olds : List Wav) × (hot_swap_files opens noon hdr busy ≡ some r')
    × AllShow r'.wavs (recording [] ∷ closed ∷ [])
    × (r'.finished ≡ olds)
    × AllHold olds ((1 ∷ 2 ∷ []) ∷ [])
hot_swap_files_lem_example =
    hot_swap_files_lem opens noon hdr busy (recording (1 ∷ 2 ∷ []) ∷ closed ∷ []) (λ name. refl)
      (λ slot uid. length-file_name (114 ∷ []) slot uid (noon uid) (omega arith)) refl
      (record { opened = refl; content = refl }, (refl, tt))

-- A file of two samples has 48 bytes, more than this limit.
abbrev tight : Recorder
tight = record two { size_based = true; max_file_size = 46 }

deinit_lem_example :
    (r' : Recorder) × (old : List Wav) × (deinit busy ≡ some r')
    × (r'.finished ≡ old)
    × AllComplete old ((1 ∷ 2 ∷ []) ∷ [])
    × Released r'.wavs (recording (1 ∷ 2 ∷ []) ∷ closed ∷ [])
    × (r'.running ≡ false)
    × (r'.buffer ≡ [])
    × (r'.size_based ≡ false)
deinit_lem_example =
    deinit_lem busy (recording (1 ∷ 2 ∷ []) ∷ closed ∷ [])
      (record { opened = refl; content = refl }, (refl, tt)) tt

abbrev late : Recorder
late = record busy { buffer = lists; running = true }

next_round-deinit_example :
    (r1 : Recorder) × (r2 : Recorder) × (close_all late ≡ some r1)
    × (next_round opens noon hdr r1 ≡ none)
    × (deinit late ≡ some r2)
    × (next_round opens noon hdr r2 ≡ some r2)
    × (r2.buffer ≡ lists)
next_round-deinit_example =
    next_round-deinit opens noon hdr late (1 ∷ 2 ∷ []) (closed ∷ []) (heard 1) (quiet ∷ [])
      ((heard 2 ∷ heard 3 ∷ []) ∷ (heard 4 ∷ quiet ∷ []) ∷ [])
      (record { opened = refl; content = refl }, (refl, tt)) tt refl refl refl refl

-- Two lists are put before the first round, one after it.
abbrev turns : List Turn
turns =
    puts (heard 1 ∷ quiet ∷ [])
    ∷ puts (heard 2 ∷ heard 3 ∷ [])
    ∷ wakes
    ∷ puts (heard 4 ∷ quiet ∷ [])
    ∷ []

all_happen_lem_example :
    all_happen opens noon hdr (turns ++ (wakes ∷ [])) two ≡ record_lists opens noon hdr two lists
all_happen_lem_example = all_happen_lem opens noon hdr turns two
