-- ===== src/Recorder/Start.antt =====
-- The state that Recorder::init of recorder/recorder.cpp leaves.
use Prim.Native.String.{String}
use recd.Common.{
  ℕ, zero, suc, ◌+◌, ◌%◌, ◌^◌, ◌≡◌, ◌<◌, ◌≤◌, refl, Bool, Option, none, some, List, [], ◌∷◌, arith,
  length, replicate,
}
use recd.Config.{MPair}
use recd.Wav.{Wav, WavHdr, setup_wave}
use recd.Wav.Recording.{create_lem}
use recd.Recorder.{Recorder, WavParams, setup_with, name_after}
use recd.Recorder.Slots.{Channel, closed, AllShow}
use recd.Recorder.Setup.{init_max_chans, setup_slots, create_slots, init_slots}

abbrev closed_channels : ℕ → List Channel
closed_channels n = replicate n closed

setup_slots_lem :
    (p : WavParams) (n : ℕ) (ws : List (Option Wav))
    → AllShow ws (closed_channels n)
    → (ws' : List (Option Wav)) × (setup_slots p n ws ≡ some ws') × AllShow ws' (closed_channels n)
unfolding setup_slots setup_wave
setup_slots_lem p zero ws v = (ws, refl, tt)
setup_slots_lem p (suc n) [] v = absurd v
setup_slots_lem p (suc n) (none ∷ ws) v = absurd v
setup_slots_lem p (suc n) (some w ∷ ws) v =
    let (ws', e, h) = setup_slots_lem p n ws v.1 in
    (some (setup_with p w) ∷ ws', rw e refl, (v.0, h))

module _ (time : ℕ → List ℕ) (garbage : WavHdr) where
  create_slots_lem :
      (prefix : List ℕ) (n i uid : ℕ) (ws : List (Option Wav))
      → ((slot uid : ℕ) → length (name_after prefix slot uid (time uid)) < 64)
      → n ≤ length ws
      → (last : ℕ) × (ws' : List (Option Wav)) × (create_slots time garbage prefix n i uid ws
          ≡ some (last, ws'))
        × AllShow ws' (closed_channels n)
  unfolding create_slots
  create_slots_lem prefix zero i uid ws short h = (uid, ws, refl, tt)
  create_slots_lem prefix (suc n) i uid [] short h = absurd (omega (arith, h))
  create_slots_lem prefix (suc n) i uid (p ∷ ws) short h =
      let uid' = (uid + 1) % 2 ^ 32 in
      let (w, made, o) = create_lem garbage (name_after prefix i uid' (time uid')) (short i uid') in
      let (last, ws', e, v) = create_slots_lem prefix n (i + 1) uid' ws short (omega (arith, h)) in
      (last, some w ∷ ws', rw (made, e) refl, (o, v))

  max_chans_range :
      (to_int to_short to_long : List ℕ → Option ℕ) (std : String → List ℕ)
      (contains : String → String → Bool) (max : MPair)
      → let n = init_max_chans to_int to_short to_long std contains max in (0 < n) × (n ≤ 127)
  unfolding init_max_chans
  max_chans_range to_int to_short to_long std contains max = ground arith

  -- Whatever number of files the configuration asks for, there are between 1 and 127 channels, and where the
  -- names of the files fit in their 64 bytes, each of the channels has an object and no file is open.
  pub init_slots_lem :
      (to_int to_short to_long : List ℕ → Option ℕ) (std : String → List ℕ)
      (contains : String → String → Bool) (max : MPair) (prefix : List ℕ) (params : WavParams)
      (r : Recorder)
      → length r.wavs ≡ 128
      → ((slot uid : ℕ) → length (name_after prefix slot uid (time uid)) < 64)
      → let n = init_max_chans to_int to_short to_long std contains max in
        (0 < n)
        × (n ≤ 127)
        × (r' : Recorder) × (init_slots time garbage prefix n params r ≡ some r')
        × (r'.max_chans ≡ n)
        × AllShow r'.wavs (replicate n closed)
        × (r'.size_based ≡ r.size_based)
        × (r'.directory ≡ r.directory)
  unfolding init_slots
  init_slots_lem to_int to_short to_long std contains max prefix params r len short =
      let (some_channel, at_most) = max_chans_range to_int to_short to_long std contains max in
      let n = init_max_chans to_int to_short to_long std contains max in
      let (uid, ws, e1, v1) =
        create_slots_lem prefix n 0 r.uid r.wavs short (omega (arith, len, at_most)) in
      let (ws', e2, v2) = setup_slots_lem params n ws v1 in
      (
        some_channel,
        at_most,
        record r { max_chans = n; uid = uid; wavs = ws'; params = params },
        rw (e1, e2) refl,
        refl,
        v2,
        refl,
        refl,
      )
