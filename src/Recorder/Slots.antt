-- ===== src/Recorder/Slots.antt =====
-- What recorder/recorder.cpp does to the file of one slot, for one entry.
use mathlib.Core.Path.{subst}
use recd.Common.{
  ℕ, ◌≡◌, ◌≤◌, ◌<◌, refl, sym, ap, ◌∙◌, Bool, true, false, Option, none, some, List, [], ◌∷◌, ◌++◌,
  ◌==◌, if◌then◌else◌, length, take, get_elem?, get_elem?-at, set, if-true, if-false, Bool-cases,
  inl, inr,
}
use recd.Server.{SampleData}
use recd.Wav.{Wav, WavHdr, open_wav, close}
use recd.Wav.Recording.{
  IsRecording, create_lem, open_wav-IsRecording, write-IsRecording, close-IsRecording,
}
use recd.Recorder.{
  Recorder, setup_with, file_name, next_uid, next_name, swap_file, reopen_wav_file, record_entry,
}

-- A channel has no file open, or has one open with these samples in it.
pub data Channel : Type 0 where
  closed : Channel
  recording : List ℕ → Channel

-- One entry for a channel: signal 0 closes; the first entry after that opens a new file, and its samples
-- are not recorded; the samples of the others are appended.
unfoldable pub step : Channel → SampleData → Channel
step c s =
    if s.signal == 0
    then closed
    else elim c [ closed ↦ recording [] | recording ss ↦ recording (ss ++ take s.size s.samples) ]

unfoldable pub step_all : List Channel → List SampleData → List Channel
step_all [] sd = []
step_all (c ∷ cs) [] = c ∷ cs
step_all (c ∷ cs) (s ∷ sd) = step c s ∷ step_all cs sd

unfoldable pub step_lists : List Channel → List (List SampleData) → List Channel
step_lists cs [] = cs
step_lists cs (sd ∷ sds) = step_lists (step_all cs sd) sds

abbrev pub Shows : Wav → Channel → Type 0
Shows w closed = w.is_opened ≡ false
Shows w (recording ss) = IsRecording w ss

-- The first slots show these channels.
abbrev pub AllShow : List (Option Wav) → List Channel → Type 0
AllShow ws [] = Unit {0}
AllShow [] (c ∷ cs) = ⊥
AllShow (none ∷ ws) (c ∷ cs) = ⊥
AllShow (some w ∷ ws) (c ∷ cs) = Shows w c × AllShow ws cs

-- The arrays of a list are as long as their sizes say, and there is a slot for each entry.
abbrev pub Fits : List Channel → List SampleData → Type 0
Fits cs [] = Unit {0}
Fits [] (s ∷ sd) = ⊥
Fits (c ∷ cs) (s ∷ sd) = (s.size ≤ length s.samples) × Fits cs sd

pub set-at :
    (done rest : List (Option Wav)) (p q : Option Wav)
    → set (done ++ (p ∷ rest)) (length done) q ≡ (done ++ (q ∷ [])) ++ rest
set-at [] rest p q = refl
set-at (d ∷ done) rest p q = ap (λ l. d ∷ l) (set-at done rest p q)

module _ (fopen_ok : List ℕ → Bool) (time : ℕ → List ℕ) (garbage : WavHdr) where
  unfoldable pub AtSlot :
      Recorder → List (Option Wav) → List (Option Wav) → Channel → Option Recorder → Type 0
  AtSlot r done rest c result =
      (r' : Recorder) × (w' : Wav) × (result ≡ some r')
      × (r'.wavs ≡ (done ++ (some w' ∷ [])) ++ rest)
      × Shows w' c
      × (r'.directory ≡ r.directory)
      × (r'.size_based ≡ r.size_based)
      × (r'.max_chans ≡ r.max_chans)
      × (r'.max_file_size ≡ r.max_file_size)

  close_lem :
      (w : Wav) (c : Channel)
      → Shows w c
      → (w' : Wav) × (close w ≡ some w') × (w'.is_opened ≡ false)
  unfolding close
  close_lem w closed v = (w, if-false _ _ v, v)
  close_lem w (recording ss) v = let (w', e, o, f) = close-IsRecording w ss v in (w', e, o)

  swap_file_lem :
      (r : Recorder) (done rest : List (Option Wav)) (w : Wav) (c : Channel)
      → ((name : List ℕ) → fopen_ok name ≡ true)
      → ((slot uid : ℕ) → length (file_name r.directory slot uid (time uid)) < 64)
      → r.wavs ≡ done ++ (some w ∷ rest)
      → Shows w c
      → AtSlot r done rest (recording []) (swap_file fopen_ok time garbage r (length done) w)
  unfolding AtSlot swap_file
  swap_file_lem r done rest w c opens short e v =
      let (old, e1, o1) = close_lem w c v in
      let (fresh, e2, o2) =
        create_lem garbage (next_name fopen_ok time garbage r (length done))
          (short (length done) (next_uid fopen_ok time garbage r)) in
      (
        record r {
          uid = next_uid fopen_ok time garbage r;
          wavs = set r.wavs (length done) (some (opened fresh));
          finished = r.finished ++ (old ∷ []);
        },
        opened fresh,
        rw (e1, e2, opens fresh.filename) refl,
        rw e (set-at done rest (some w) (some (opened fresh))),
        open_wav-IsRecording (setup_with r.params fresh) (length done),
        refl,
        refl,
        refl,
        refl,
      )
    where
      opened : Wav → Wav
      opened fresh = (open_wav true (setup_with r.params fresh) (length done)).0

  slot-at :
      (r : Recorder) (done rest : List (Option Wav)) (w : Wav)
      → r.wavs ≡ done ++ (some w ∷ rest)
      → get_elem? r.wavs (length done) ≡ some (some w)
  slot-at r done rest w e = rw e (get_elem?-at done rest (some w))

  -- An entry whose signal is not 0.
  record_sounding_lem :
      (r : Recorder) (done rest : List (Option Wav)) (w : Wav) (c : Channel) (s : SampleData)
      → ((name : List ℕ) → fopen_ok name ≡ true)
      → ((slot uid : ℕ) → length (file_name r.directory slot uid (time uid)) < 64)
      → r.wavs ≡ done ++ (some w ∷ rest)
      → Shows w c
      → s.size ≤ length s.samples
      → (s.signal == 0) ≡ false
      → AtSlot r done rest (step c s) (record_entry fopen_ok time garbage r (length done) s)
  unfolding AtSlot record_entry step reopen_wav_file
  record_sounding_lem r done rest w closed s opens short e v fits loud =
      subst (AtSlot r done rest (step closed s)) (sym reopens)
        (rw loud (swap_file_lem r done rest w closed opens short e v))
    where
      reopens :
          record_entry fopen_ok time garbage r (length done) s
          ≡ swap_file fopen_ok time garbage r (length done) w
      reopens =
          rw (slot-at r done rest w e, loud)
            (if-false _ _ v ∙ rw (slot-at r done rest w e) (if-false _ _ v))
  record_sounding_lem r done rest w (recording ss) s opens short e v fits loud =
      let (w', count, e1, h1, m1, v1) = write-IsRecording w ss s.samples s.size v fits in
      (
        record r { wavs = set r.wavs (length done) (some w') },
        w',
        rw (slot-at r done rest w e, loud) (if-true _ _ v.opened ∙ rw e1 refl),
        rw e (set-at done rest (some w) (some w')),
        rw loud v1,
        refl,
        refl,
        refl,
        refl,
      )

  -- One entry at the slot of a file: the slot afterwards shows the next state of the channel.
  pub record_entry_lem :
      (r : Recorder) (done rest : List (Option Wav)) (w : Wav) (c : Channel) (s : SampleData)
      → ((name : List ℕ) → fopen_ok name ≡ true)
      → ((slot uid : ℕ) → length (file_name r.directory slot uid (time uid)) < 64)
      → r.wavs ≡ done ++ (some w ∷ rest)
      → Shows w c
      → s.size ≤ length s.samples
      → AtSlot r done rest (step c s) (record_entry fopen_ok time garbage r (length done) s)
  unfolding AtSlot record_entry step
  record_entry_lem r done rest w c s opens short e v fits = elim (Bool-cases (s.signal == 0)) [
    | inl quiet ↦
        let (w', e1, o1) = close_lem w c v in
        (
          record r { wavs = set r.wavs (length done) (some w') },
          w',
          rw (slot-at r done rest w e, quiet, e1) refl,
          rw e (set-at done rest (some w) (some w')),
          rw quiet o1,
          refl,
          refl,
          refl,
          refl,
        )
    | inr loud ↦ record_sounding_lem r done rest w c s opens short e v fits loud
  ]
