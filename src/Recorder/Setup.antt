-- ===== src/Recorder/Setup.antt =====
-- Recorder::init of recorder/recorder.cpp: the channels, the files, the header and the change of files, from the
-- configuration.
use Prim.Native.String.{String}
use text.Mathlib.Text.{◌==◌ as str_eq}
use recd.Common.{
  ℕ, zero, suc, ◌+◌, ◌*◌, ◌%◌, ◌^◌, Bool, true, Option, none, some, List, [], ◌∷◌, ◌++◌, ◌==◌,
  if◌then◌else◌, ◌>>=◌, ◌||◌, ◌&&◌, ltb, leb, set,
}
use recd.Config.{MPair, PairList, Tags, index, get_attrib_pair_from_tag, get_tag_pairs}
use recd.Wav.{Wav, WavHdr, create}
use recd.Recorder.{Recorder, WavParams, setup_with, name_after}

-- `is_digit`: what it copies over the static `digit[16]`, which keeps the rest of an earlier call.
pub copy_digits : List ℕ → ℕ → List ℕ → List ℕ
copy_digits [] size digit = digit
copy_digits (c ∷ str) size digit =
    let rest = copy_digits str (size + 1) (set digit size c) in
    if leb 48 c && (leb c 57 && ltb size 16) then rest else digit

-- The bytes before the final 0; `none` is an array without one.
unfoldable pub c_string : List ℕ → Option (List ℕ)
c_string [] = none
c_string (zero ∷ cs) = some []
c_string (suc c ∷ cs) = c_string cs >>= λ t. some (suc c ∷ t)

-- The buffer afterwards, and the text that the caller reads from it.
pub is_digit : List ℕ → List ℕ → List ℕ × Option (List ℕ)
is_digit digit str = let after = copy_digits str 0 digit in (after, c_string after)

-- Qt's conversions of a text, given as its bytes: the bit pattern, or none for a failure, where they return 0;
-- `std` is QString::toStdString, and `contains text part` QString::contains without regard to case.
module _ (to_int to_short to_long : List ℕ → Option ℕ) (std : String → List ℕ)
    (contains : String → String → Bool) where
  abbrev number : (List ℕ → Option ℕ) → List ℕ → ℕ → ℕ
  number to text fallback = elim (to text) [ none ↦ fallback | some n ↦ n ]

  unfoldable pub init_max_chans : MPair → ℕ
  init_max_chans max = if str_eq max.type1 "" then 1 else elim (to_int (std max.type2)) [
    | none ↦ 1
    | some n ↦ if ltb 127 n || n == 0 then 1 else n
  ]

  -- One attribute of the tag `Wave`.
  pub read_param : WavParams → MPair → WavParams
  read_param p it =
      if str_eq it.type1 "samplesPerFrame"
      then record p { samples_per_sec = number to_int text 8000 }
      else if str_eq it.type1 "bitsPerSec"
      then record p { bits_per_sec = number to_int text 16 }
      else if str_eq it.type1 "fmtLength"
      then record p { fmt_len = number to_int text 16 }
      else if str_eq it.type1 "audioFormat"
      then record p { audio_fmt = number to_short text 1 }
      else if str_eq it.type1 "channels"
      then record p { chann_cnt = number to_short text 1 }
      else p
    where
      text : List ℕ
      text = std (index it it.type1)

  pub read_params : WavParams → PairList → WavParams
  read_params p [] = p
  read_params p (it ∷ attribs) = read_params (read_param p it) attribs

  -- 1 minute, as often as the configuration says: the milliseconds, and the buffer of `is_digit`.
  pub init_interval : List ℕ → MPair → Option (List ℕ × ℕ)
  init_interval digit interval =
      if str_eq interval.type1 ""
      then some (digit, 60000)
      else elim (is_digit digit (std interval.type2)).1 [
        | none ↦ none
        | some t ↦
            some
              ((is_digit digit (std interval.type2)).0, 60000 * number to_int t 1 % 2 ^ 64 % 2 ^ 32)
      ]

  -- The limit of a file in bytes.
  pub init_max_size : List ℕ → ℕ → MPair → Option (List ℕ × ℕ)
  init_max_size digit old max_size =
      if str_eq max_size.type1 ""
      then some (digit, old)
      else elim (is_digit digit (std max_size.type2)).1 [
        | none ↦ none
        | some t ↦ some (
          (is_digit digit (std max_size.type2)).0,
          elim (to_long t) [ none ↦ 30000000 | some mfs ↦ mfs * unit % 2 ^ 64 % 2 ^ 32 ],
        )
      ]
    where
      unit : ℕ
      unit =
          if contains max_size.type2 "MB" || contains max_size.type2 "M"
          then 1000000
          else if contains max_size.type2 "GB" || contains max_size.type2 "G"
          then 1000000000
          else 1

  -- The timer's interval if the files change with the time, and the recorder.
  pub init_hot_swap : List ℕ → MPair → MPair → MPair → Recorder → Option (Recorder × Option ℕ)
  init_hot_swap digit hot_swap max_size interval r =
      if str_eq hot_swap.type1 ""
      then some (r, none)
      else if str_eq hot_swap.type2 "enabled" || str_eq hot_swap.type2 "true"
      then timed
      else sized
    where
      timed : Option (Recorder × Option ℕ)
      timed = init_interval digit interval >>= λ (digit', time). some (r, some time)

      sized : Option (Recorder × Option ℕ)
      sized = init_max_size digit r.max_file_size max_size >>= λ (digit', limit).
          some (record r { max_file_size = limit; size_based = true }, none)

-- `for(int i=0; i < m_maxChans; ++i) m_wavs[i]->setupWave(...)`
unfoldable pub setup_slots : WavParams → ℕ → List (Option Wav) → Option (List (Option Wav))
setup_slots p zero ws = some ws
setup_slots p (suc n) [] = none
setup_slots p (suc n) (none ∷ ws) = none
setup_slots p (suc n) (some w ∷ ws) =
    setup_slots p n ws >>= λ ws'. some (some (setup_with p w) ∷ ws')

module _ (time : ℕ → List ℕ) (garbage : WavHdr) where
  -- The loop of `init` that makes the objects: the last number given out, and the slots.
  unfoldable pub create_slots :
      List ℕ → ℕ → ℕ → ℕ → List (Option Wav) → Option (ℕ × List (Option Wav))
  create_slots prefix zero i uid ws = some (uid, ws)
  create_slots prefix (suc n) i uid [] = none
  create_slots prefix (suc n) i uid (p ∷ ws) =
      let uid' = (uid + 1) % 2 ^ 32 in
      create garbage (name_after prefix i uid' (time uid')) >>= λ w.
      create_slots prefix n (i + 1) uid' ws >>= λ (last, ws'). some (last, some w ∷ ws')

  -- The channels are made and their headers set up; `m_directory` is the directory of the configuration.
  unfoldable pub init_slots : List ℕ → ℕ → WavParams → Recorder → Option Recorder
  init_slots prefix max params r = create_slots prefix max 0 r.uid r.wavs >>= λ (uid, ws).
      setup_slots params max ws >>= λ ws'.
      some (record r { max_chans = max; uid = uid; wavs = ws'; params = params })

module _ (to_int to_short to_long : List ℕ → Option ℕ) (std : String → List ℕ)
    (contains : String → String → Bool) (time : ℕ → List ℕ) (garbage : WavHdr) where
  abbrev zero_params : WavParams
  zero_params = record {
    samples_per_sec = 0;
    bits_per_sec = 0;
    riff_len = 0;
    fmt_len = 0;
    audio_fmt = 0;
    chann_cnt = 0;
  }

  -- `init`, with the buffer of `is_digit` and what stands for a missing attribute: the recorder and the interval of the timer.
  pub init : List ℕ → MPair → Tags → Recorder → Option (Recorder × Option ℕ)
  init digit none_pair tags r =
      let (dir, tags1) = get_attrib_pair_from_tag none_pair tags "Paths" "records" in
      let (max, tags2) = get_attrib_pair_from_tag none_pair tags1 "Record" "files" in
      let (attribs, tags3) = get_tag_pairs tags2 "Wave" in
      let (hot_swap, tags4) = get_attrib_pair_from_tag none_pair tags3 "HotSwap" "timeBased" in
      let (max_size, tags5) = get_attrib_pair_from_tag none_pair tags4 "HotSwap" "maxSize" in
      let (interval, tags6) = get_attrib_pair_from_tag none_pair tags5 "HotSwap" "interval" in
      let prefix = if str_eq dir.type1 "" then [] else std dir.type2 ++ (47 ∷ []) in
      let directory = if str_eq dir.type1 "" then [] else std dir.type2 in
      let params = read_params to_int to_short to_long std contains zero_params attribs in
      init_slots time garbage prefix (init_max_chans to_int to_short to_long std contains max)
        params (record r { directory = directory })
      >>= λ r1.
          init_hot_swap to_int to_short to_long std contains digit hot_swap max_size interval r1
          >>= λ (r2, interval_ms). some (record r2 { running = true }, interval_ms)
