-- ===== src/Recorder/Stop.antt =====
-- `deinit` of recorder/recorder.cpp: the files that it closes, and the thread that still runs.
use recd.Common.{
  ℕ, ◌+◌, ◌*◌, ◌%◌, ◌^◌, ◌≡◌, refl, ap, ◌∙◌, Bool, true, false, Option, none, some, List, [], ◌∷◌,
  ◌++◌, ◌==◌, length, drop, ◌>>=◌, if-true, if-false,
}
use recd.Server.{SampleData}
use recd.Wav.{Wav, WavHdr, closed_file, hdr_bytes, sample_bytes}
use recd.Wav.Recording.{close-IsRecording}
use recd.Wav.Growth.{file, with_lengths}
use recd.Recorder.{
  Recorder, deinit_wavs, close_all, stop_recoder, deinit, run_round, next_round, record_lists,
  record_list, record_entries, record_entry,
}
use recd.Recorder.Slots.{Channel, closed, recording, AllShow}
use recd.Recorder.Swap.{recorded}

-- A closed file with these samples behind its header, and their number of bytes in both lengths.
abbrev pub IsComplete : Wav → List ℕ → Type 0
IsComplete w ss =
    (h : WavHdr) × (w.m_file
      ≡ closed_file (
          file
            (hdr_bytes (with_lengths h ((2 * length ss + 36) % 2 ^ 32) (2 * length ss % 2 ^ 32))
              ++ sample_bytes ss)
            8))

abbrev pub AllComplete : List Wav → List (List ℕ) → Type 0
AllComplete [] [] = Unit {0}
AllComplete [] (ss ∷ sss) = ⊥
AllComplete (w ∷ ws) [] = ⊥
AllComplete (w ∷ ws) (ss ∷ sss) = IsComplete w ss × AllComplete ws sss

-- The slots of the channels that have recorded are null, the others keep their objects, and nothing is behind them.
abbrev pub Released : List (Option Wav) → List Channel → Type 0
Released [] [] = Unit {0}
Released (none ∷ ws) [] = Released ws []
Released (some w ∷ ws) [] = ⊥
Released [] (c ∷ cs) = ⊥
Released (none ∷ ws) (closed ∷ cs) = ⊥
Released (some w ∷ ws) (closed ∷ cs) = (w.is_opened ≡ false) × Released ws cs
Released (none ∷ ws) (recording ss ∷ cs) = Released ws cs
Released (some w ∷ ws) (recording ss ∷ cs) = ⊥

-- Null pointers only.
abbrev pub AllNull : List (Option Wav) → Type 0
AllNull [] = Unit {0}
AllNull (none ∷ ws) = AllNull ws
AllNull (some w ∷ ws) = ⊥

deinit_wavs_lem :
    (ws : List (Option Wav)) (cs : List Channel)
    → AllShow ws cs
    → AllNull (drop (length cs) ws)
    → (ws' : List (Option Wav)) × (old : List Wav) × (deinit_wavs ws ≡ some (ws', old))
      × Released ws' cs
      × AllComplete old (recorded cs)
unfolding deinit_wavs
deinit_wavs_lem [] [] v n = ([], [], refl, tt, tt)
deinit_wavs_lem (none ∷ ws) [] v n =
    let (ws', old, e, rel, all) = deinit_wavs_lem ws [] tt n in
    (none ∷ ws', old, rw e refl, rel, all)
deinit_wavs_lem (some w ∷ ws) [] v n = absurd n
deinit_wavs_lem [] (c ∷ cs) v n = absurd v
deinit_wavs_lem (none ∷ ws) (c ∷ cs) v n = absurd v
deinit_wavs_lem (some w ∷ ws) (closed ∷ cs) v n =
    let (ws', old, e, rel, all) = deinit_wavs_lem ws cs v.1 n in
    (some w ∷ ws', old, if-false _ _ v.0 ∙ rw e refl, (v.0, rel), all)
deinit_wavs_lem (some w ∷ ws) (recording ss ∷ cs) v n =
    let (ws', old, e, rel, all) = deinit_wavs_lem ws cs v.1 n in
    let (w', e1, o1, f1) = close-IsRecording w ss v.0 in
    (none ∷ ws', w' ∷ old, if-true _ _ v.0.opened ∙ rw (e1, e) refl, rel, ((w.header, f1), all))

-- With the files of the channels in the first slots and null pointers in the others: `deinit` closes every file that is
-- open, complete, with the samples that its channel has recorded, in the order of the slots, and no other; it
-- deletes the objects of these files only, and tells the thread to end.
pub deinit_lem :
    (r : Recorder) (cs : List Channel)
    → AllShow r.wavs cs
    → AllNull (drop (length cs) r.wavs)
    → (r' : Recorder) × (old : List Wav) × (deinit r ≡ some r')
      × (r'.finished ≡ r.finished ++ old)
      × AllComplete old (recorded cs)
      × Released r'.wavs cs
      × (r'.running ≡ false)
      × (r'.buffer ≡ r.buffer)
      × (r'.size_based ≡ r.size_based)
unfolding deinit close_all
deinit_lem r cs v n =
    let (ws, old, e, rel, all) = deinit_wavs_lem r.wavs cs v n in
    (
      record r { wavs = ws; finished = r.finished ++ old; running = false },
      old,
      rw e refl,
      refl,
      all,
      rel,
      refl,
      refl,
      refl,
    )

module _ (fopen_ok : List ℕ → Bool) (time : ℕ → List ℕ) (garbage : WavHdr) where
  null_entry :
      (r : Recorder) (ws : List (Option Wav)) (ss : List ℕ) (cs : List Channel) (s : SampleData)
      → r.wavs ≡ ws
      → Released ws (recording ss ∷ cs)
      → (s.signal == 0) ≡ false
      → record_entry fopen_ok time garbage r 0 s ≡ none
  unfolding record_entry
  null_entry r [] ss cs s e v loud = absurd v
  null_entry r (none ∷ ws) ss cs s e v loud = rw (e, loud) refl
  null_entry r (some w ∷ ws) ss cs s e v loud = absurd v

  -- `deinit` closes and deletes the files in its loop, and tells the thread to end behind it. Let the files of the
  -- channels be in the first slots and null pointers in the others, `running` be true and the thread be in `run`,
  -- which `startRecorder` does not bring about. In a recorder without a limit of the file size whose first channel
  -- records and whose queue has a list whose first entry has a signal: between the loop and `stopRecoder` the
  -- thread's test of `running` still holds and the next round calls through a null pointer. After `deinit`, which
  -- succeeds, the test ends the thread, and the lists are still in the queue.
  pub next_round-deinit :
      (r : Recorder) (ss : List ℕ) (cs : List Channel) (s : SampleData) (sd : List SampleData)
      (sds : List (List SampleData))
      → AllShow r.wavs (recording ss ∷ cs)
      → AllNull (drop (length (recording ss ∷ cs)) r.wavs)
      → r.size_based ≡ false
      → r.buffer ≡ (s ∷ sd) ∷ sds
      → (s.signal == 0) ≡ false
      → r.running ≡ true
      → (r1 : Recorder) × (r2 : Recorder) × (close_all r ≡ some r1)
        × (next_round fopen_ok time garbage r1 ≡ none)
        × (deinit r ≡ some r2)
        × (next_round fopen_ok time garbage r2 ≡ some r2)
        × (r2.buffer ≡ (s ∷ sd) ∷ sds)
  unfolding next_round run_round record_lists record_list record_entries deinit close_all
  next_round-deinit r ss cs s sd sds v n sb b loud on =
      let (ws, old, e, rel, all) = deinit_wavs_lem r.wavs (recording ss ∷ cs) v n in
      let r1 : Recorder = record r { wavs = ws; finished = r.finished ++ old } in
      let empty : Recorder = record r1 { buffer = [] } in
      (
        r1,
        stop_recoder r1,
        rw e refl,
        if-true {b = r.running} _ (some r1) on
            ∙ ap (record_lists fopen_ok time garbage empty) b
            ∙ ap
                (λ (o : Option Recorder).
                  (o >>= λ r'. record_entries fopen_ok time garbage r' 0 (s ∷ sd)) >>= λ r'.
                  record_lists fopen_ok time garbage r' sds)
                (if-false {b = r.size_based} _ (some empty) sb)
            ∙ rw (null_entry empty ws ss cs s refl rel loud) refl,
        rw e refl,
        refl,
        b,
      )
