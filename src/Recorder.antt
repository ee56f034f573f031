-- ===== src/Recorder.antt =====
-- plugin::rec::Recorder of recorder/recorder.cpp: one WAV file for each channel, written from the lists of entries that
-- the plugin before it puts. `none` is a call through a null pointer, an index outside `m_wavs` or a file name
-- that does not fit. The configuration is read in Recorder/Setup.
pub mod Slots
pub mod Channels
pub mod Names
pub mod Setup
pub mod Start
pub mod Changes
pub mod Swap
pub mod Budget
pub mod Limit
pub mod Stop
pub mod Thread
mod Tests
use recd.Common.{
  ℕ, zero, suc, ◌+◌, ◌-◌, ◌/◌, ◌%◌, ◌^◌, Bool, true, false, Option, none, some, List, [], ◌∷◌, ◌++◌,
  ◌==◌, if◌then◌else◌, ltb, length, take, get_elem?, set, ◌>>=◌, ◌&&◌,
}
use recd.Server.{SampleData}
use recd.Wav.{Wav, WavHdr, create, setup_wave, open_wav, close, write, get_file_size}

-- `m_wavParams`
pub record WavParams : Type 0 where
  pub samples_per_sec : ℕ
  pub bits_per_sec : ℕ
  pub riff_len : ℕ
  pub fmt_len : ℕ
  pub audio_fmt : ℕ
  pub chann_cnt : ℕ

pub record Recorder : Type 0 where
  pub wavs : List (Option Wav)
  pub max_chans : ℕ
  pub size_based : Bool
  pub max_file_size : ℕ
  pub uid : ℕ
  pub params : WavParams
  pub directory : List ℕ
  pub buffer : List (List SampleData)
  pub running : Bool
  -- The objects that have been deleted, oldest first: their files stay on the disk.
  pub finished : List Wav

-- `%d` of a number, with ten places for a word of 32 bits; 48 is '0' and 45 is '-'.
abbrev pub decimal : ℕ → ℕ → List ℕ
decimal zero n = []
decimal (suc places) n =
    let front = decimal places (n / 10) in
    if ltb n 10 then (48 + n) ∷ [] else front ++ ((48 + n % 10) ∷ [])

unfoldable pub int_text : ℕ → List ℕ
int_text n = if ltb n (2 ^ 31) then decimal 10 n else 45 ∷ decimal 10 (2 ^ 32 - n)

-- "%d-%d-%s.wav" behind a prefix, in the 256 bytes of `buff`; 45 is '-' and 47 is '/'.
pub name_after : List ℕ → ℕ → ℕ → List ℕ → List ℕ
name_after prefix slot uid time =
    take 255 (
      prefix ++ (int_text slot ++ (45 ∷ int_text uid ++ (45 ∷ time ++ (46 ∷ 119 ∷ 97 ∷ 118 ∷ [])))))

-- The name of a file that is opened later: "%s/" stands before it if there is a directory.
pub file_name : List ℕ → ℕ → ℕ → List ℕ → List ℕ
file_name directory slot uid time = name_after (folder directory) slot uid time
  where
    folder : List ℕ → List ℕ
    folder [] = []
    folder (c ∷ cs) = c ∷ cs ++ (47 ∷ [])

abbrev pub setup_with : WavParams → Wav → Wav
setup_with p w =
    setup_wave w p.samples_per_sec p.bits_per_sec p.riff_len p.fmt_len p.audio_fmt p.chann_cnt

-- Whether `fopen` of a name succeeds, the text of `DateTime::getTimeString` when the file with this number is
-- made, and what a new header's memory holds.
module _ (fopen_ok : List ℕ → Bool) (time : ℕ → List ℕ) (garbage : WavHdr) where
  abbrev pub next_uid : Recorder → ℕ
  next_uid r = (r.uid + 1) % 2 ^ 32

  abbrev pub next_name : Recorder → ℕ → List ℕ
  next_name r slot = file_name r.directory slot (next_uid r) (time (next_uid r))

  -- A file of a slot closed, and a new one opened in its place.
  unfoldable pub swap_file : Recorder → ℕ → Wav → Option Recorder
  swap_file r slot w = close w >>= λ old. create garbage (next_name r slot) >>= λ fresh.
      some (record r {
        uid = next_uid r;
        wavs =
            set r.wavs slot
              (some (open_wav (fopen_ok fresh.filename) (setup_with r.params fresh) slot).0);
        finished = r.finished ++ (old ∷ []);
      })

  unfoldable pub reopen_wav_file : Recorder → ℕ → Option Recorder
  reopen_wav_file r slot = get_elem? r.wavs slot >>= λ p. elim p [
    | none ↦ some r
    | some w ↦ if w.is_opened then some r else swap_file r slot w
  ]

  -- The body of the loop of `hotSwapFiles`.
  unfoldable pub hot_swap_file : Recorder → ℕ → Option Recorder
  hot_swap_file r i = get_elem? r.wavs i >>= λ p. elim p [
    | none ↦ some r
    | some w ↦ if w.is_opened then swap_file r i w else some r
  ]

  -- The body of the loop of `pollHotSwap`.
  unfoldable pub poll_file : Recorder → ℕ → Option Recorder
  poll_file r i = get_elem? r.wavs i >>= λ p. elim p [
    | none ↦ some r
    | some w ↦
        if w.is_opened
        then (get_file_size w >>= λ size.
            if ltb r.max_file_size size then swap_file r i w else some r)
        else some r
  ]

  -- `for(int i=0; i < m_maxChans; ++i)`, `n` rounds left.
  unfoldable pub for_slots : (Recorder → ℕ → Option Recorder) → ℕ → ℕ → Recorder → Option Recorder
  for_slots body zero i r = some r
  for_slots body (suc n) i r = body r i >>= λ r'. for_slots body n (i + 1) r'

  unfoldable pub hot_swap_files : Recorder → Option Recorder
  hot_swap_files r = for_slots hot_swap_file r.max_chans 0 r

  unfoldable pub poll_hot_swap : Recorder → Option Recorder
  poll_hot_swap r = for_slots poll_file r.max_chans 0 r

  -- The body of the loop of `record`; the samples are deleted afterwards.
  unfoldable pub record_entry : Recorder → ℕ → SampleData → Option Recorder
  record_entry r i s = get_elem? r.wavs i >>= λ p.
      if s.signal == 0
      then (elim p [
        | none ↦ some r
        | some w ↦ close w >>= λ w'. some (record r { wavs = set r.wavs i (some w') })
      ])
      else elim p [
        | none ↦ none
        | some w ↦
            if w.is_opened
            then (write w s.samples s.size >>= λ (w', count).
                some (record r { wavs = set r.wavs i (some w') }))
            else reopen_wav_file r i
      ]

  unfoldable pub record_entries : Recorder → ℕ → List SampleData → Option Recorder
  record_entries r i [] = some r
  record_entries r i (s ∷ sd) = record_entry r i s >>= λ r'. record_entries r' (i + 1) sd

  unfoldable pub record_list : Recorder → List SampleData → Option Recorder
  record_list r [] = some r
  record_list r (s ∷ sd) =
      (if r.size_based then poll_hot_swap r else some r) >>= λ r'. record_entries r' 0 (s ∷ sd)

  -- `for(int i=0; i < dblBuff.count(); ++i)`
  unfoldable pub record_lists : Recorder → List (List SampleData) → Option Recorder
  record_lists r [] = some r
  record_lists r (sd ∷ sds) = record_list r sd >>= λ r'. record_lists r' sds

  -- The body of the loop of `run`: the queue is emptied under the lock, then its lists are recorded.
  unfoldable pub run_round : Recorder → Option Recorder
  run_round r = record_lists (record r { buffer = [] }) r.buffer

  -- The test `while (r->m_thread.running)` behind the body, and the body again where it holds; a loop that has ended
  -- leaves the recorder as it is. `startRecorder` starts a thread that does not call `run`.
  unfoldable pub next_round : Recorder → Option Recorder
  next_round r = let again = run_round r in if r.running then again else some r

-- `put_data(&ls)` for the last plugin of the chain: the list stays as it is.
unfoldable pub put_data : Recorder → List SampleData → Recorder × List SampleData
put_data r ls = (record r { buffer = r.buffer ++ (ls ∷ []) }, ls)

-- The loop of `deinit`, over the slots: a file that is open is closed and its object deleted.
pub deinit_wavs : List (Option Wav) → Option (List (Option Wav) × List Wav)
deinit_wavs [] = some ([], [])
deinit_wavs (none ∷ ws) = deinit_wavs ws >>= λ (ws', old). some (none ∷ ws', old)
deinit_wavs (some w ∷ ws) =
    let rest = deinit_wavs ws in
    if w.is_opened
    then (close w >>= λ w'. rest >>= λ (ws', old). some (none ∷ ws', w' ∷ old))
    else (rest >>= λ (ws', old). some (some w ∷ ws', old))

pub close_all : Recorder → Option Recorder
close_all r =
    deinit_wavs r.wavs >>= λ (ws, old). some (record r { wavs = ws; finished = r.finished ++ old })

-- `stopRecoder`, without the wait.
abbrev pub stop_recoder : Recorder → Recorder
stop_recoder r = record r { running = false }

pub deinit : Recorder → Option Recorder
deinit r = close_all r >>= λ r'. some (stop_recoder r')

abbrev pub same_text : List ℕ → List ℕ → Bool
same_text [] [] = true
same_text [] (d ∷ ds) = false
same_text (c ∷ cs) [] = false
same_text (c ∷ cs) (d ∷ ds) = c == d && same_text cs ds

-- The loop of `getWavByName`, `n` rounds left; a null pointer is null when its name is asked for.
pub find_wav : List ℕ → ℕ → List (Option Wav) → Option (Option Wav)
find_wav fname zero ws = some none
find_wav fname (suc n) [] = none
find_wav fname (suc n) (none ∷ ws) = none
find_wav fname (suc n) (some w ∷ ws) =
    let rest = find_wav fname n ws in if same_text fname w.filename then some (some w) else rest

pub get_wav_by_name : Recorder → List ℕ → Option (Option Wav)
get_wav_by_name r fname = find_wav fname r.max_chans r.wavs
