-- ===== src/Recorder/Changes.antt =====
-- Loops of recorder/recorder.cpp over the slots that change the files of some channels.
use mathlib.Core.Path.{subst}
use recd.Common.{
  ℕ, suc, ◌+◌, ◌≡◌, ◌<◌, refl, sym, ap, ◌∙◌, Bool, true, false, Option, none, some, List, [], ◌∷◌,
  ◌++◌, length, get_elem?, set, arith, length-append, append_assoc, append-nil, if-true, if-false,
  if◌then◌else◌, Bool-cases, inl, inr,
}
use recd.Wav.{Wav, WavHdr, closed_file, hdr_bytes, sample_bytes, open_wav}
use recd.Wav.Growth.{file}
use recd.Wav.Recording.{IsRecording, create_lem, open_wav-IsRecording, close-IsRecording}
use recd.Recorder.{Recorder, setup_with, file_name, next_uid, next_name, swap_file, for_slots}
use recd.Recorder.Slots.{Channel, closed, recording, AllShow, Shows, set-at}
use recd.Common.{get_elem?-at}

-- A file that has been closed with these samples behind its header.
abbrev pub Holds : Wav → List ℕ → Type 0
Holds w ss =
    (h : WavHdr) × (p : ℕ) × (w.m_file ≡ closed_file (file (hdr_bytes h ++ sample_bytes ss) p))

abbrev pub AllHold : List Wav → List (List ℕ) → Type 0
AllHold [] [] = Unit {0}
AllHold [] (ss ∷ sss) = ⊥
AllHold (w ∷ ws) [] = ⊥
AllHold (w ∷ ws) (ss ∷ sss) = Holds w ss × AllHold ws sss

-- The open files whose samples pass a test, and the channels after a change of these files.
abbrev pub recorded_where : (List ℕ → Bool) → List Channel → List (List ℕ)
recorded_where p [] = []
recorded_where p (closed ∷ cs) = recorded_where p cs
recorded_where p (recording ss ∷ cs) =
    if p ss then ss ∷ recorded_where p cs else recorded_where p cs

abbrev pub change_where : (List ℕ → Bool) → Channel → Channel
change_where p closed = closed
change_where p (recording ss) = if p ss then recording [] else recording ss

abbrev pub changed_where : (List ℕ → Bool) → List Channel → List Channel
changed_where p [] = []
changed_where p (c ∷ cs) = change_where p c ∷ changed_where p cs

module _ (fopen_ok : List ℕ → Bool) (time : ℕ → List ℕ) (garbage : WavHdr) where
  pub swap-IsRecording :
      (r : Recorder) (done rest : List (Option Wav)) (w : Wav) (ss : List ℕ)
      → ((name : List ℕ) → fopen_ok name ≡ true)
      → ((slot uid : ℕ) → length (file_name r.directory slot uid (time uid)) < 64)
      → r.wavs ≡ done ++ (some w ∷ rest)
      → IsRecording w ss
      → (r' : Recorder) × (w' : Wav) × (old : Wav) × (swap_file fopen_ok time garbage r
            (length done)
            w
          ≡ some r')
        × (r'.wavs ≡ (done ++ (some w' ∷ [])) ++ rest)
        × IsRecording w' []
        × (r'.finished ≡ r.finished ++ (old ∷ []))
        × Holds old ss
        × (r'.directory ≡ r.directory)
        × (r'.size_based ≡ r.size_based)
        × (r'.max_chans ≡ r.max_chans)
        × (r'.max_file_size ≡ r.max_file_size)
  unfolding swap_file
  swap-IsRecording r done rest w ss opens short e v =
      let (old, e1, o1, f1) = close-IsRecording w ss v in
      let (fresh, e2, o2) =
        create_lem garbage (next_name fopen_ok time garbage r (length done))
          (short (length done) (next_uid fopen_ok time garbage r)) in
      (
        record r {
          uid = next_uid fopen_ok time garbage r;
          wavs = set r.wavs (length done) (some (opened fresh));
          finished = r.finished ++ (old ∷ []);
        },
        opened fresh,
        old,
        rw (e1, e2, opens fresh.filename) refl,
        rw e (set-at done rest (some w) (some (opened fresh))),
        open_wav-IsRecording (setup_with r.params fresh) (length done),
        refl,
        (_, _, f1),
        refl,
        refl,
        refl,
        refl,
      )
    where
      opened : Wav → Wav
      opened fresh = (open_wav true (setup_with r.params fresh) (length done)).0

  pub slot-at :
      (r : Recorder) (done ws : List (Option Wav)) (w : Wav)
      → r.wavs ≡ done ++ (some w ∷ ws)
      → get_elem? r.wavs (length done) ≡ some (some w)
  slot-at r done ws w e = rw e (get_elem?-at done ws (some w))

  -- A body that changes the files that pass the test, and no others.
  pub record Changes (p : List ℕ → Bool) (limit : ℕ) (body : Recorder → ℕ → Option Recorder)
      : Type 0 where
    pub at_closed :
        (r : Recorder) (done ws : List (Option Wav)) (w : Wav)
        → r.max_file_size ≡ limit
        → r.wavs ≡ done ++ (some w ∷ ws)
        → w.is_opened ≡ false
        → body r (length done) ≡ some r
    pub at_recording :
        (r : Recorder) (done ws : List (Option Wav)) (w : Wav) (ss : List ℕ)
        → r.max_file_size ≡ limit
        → r.wavs ≡ done ++ (some w ∷ ws)
        → IsRecording w ss
        → body r (length done)
          ≡ (if p ss then swap_file fopen_ok time garbage r (length done) w else some r)

  unfoldable pub Changed :
      (List ℕ → Bool) → Recorder → List (Option Wav) → List Channel → Option Recorder → Type 0
  Changed p r done cs result =
      (r' : Recorder) × (ws' : List (Option Wav)) × (olds : List Wav) × (result ≡ some r')
      × (r'.wavs ≡ done ++ ws')
      × AllShow ws' (changed_where p cs)
      × (r'.finished ≡ r.finished ++ olds)
      × AllHold olds (recorded_where p cs)
      × (r'.directory ≡ r.directory)
      × (r'.size_based ≡ r.size_based)
      × (r'.max_chans ≡ r.max_chans)
      × (r'.max_file_size ≡ r.max_file_size)

  module _ (p : List ℕ → Bool) (limit : ℕ) (body : Recorder → ℕ → Option Recorder)
      (v : Changes p limit body) where
    -- One slot goes by as it is.
    kept :
        (c : Channel) (cs : List Channel) (r : Recorder) (done ws : List (Option Wav)) (w : Wav)
        (i : ℕ)
        → r.wavs ≡ done ++ (some w ∷ ws)
        → i ≡ length done
        → body r (length done) ≡ some r
        → Shows w (change_where p c)
        → recorded_where p (c ∷ cs) ≡ recorded_where p cs
        → Changed p r
            (done ++ (some w ∷ []))
            cs
            (for_slots fopen_ok time garbage body (length cs) (i + 1) r)
        → Changed p r done (c ∷ cs) (for_slots fopen_ok time garbage body (suc (length cs)) i r)
    unfolding Changed for_slots
    kept c cs r done ws w i e n b sh rec (r2, ws2, olds, e2, d2, v2, f2, h2, dir2, sb2, mc2, mf2) =
        (
          r2,
          some w ∷ ws2,
          olds,
          rw (n, b, sym n) e2,
          d2 ∙ append_assoc done (some w ∷ []) ws2,
          (sh, v2),
          f2,
          subst (AllHold olds) (sym rec) h2,
          dir2,
          sb2,
          mc2,
          mf2,
        )

    -- The loop from the slot `i` on: each file that passes the test is closed with exactly its samples, and its slot has
    -- a new one.
    pub for_slots_lem :
        (cs : List Channel) (r : Recorder) (done ws : List (Option Wav)) (i : ℕ)
        → ((name : List ℕ) → fopen_ok name ≡ true)
        → ((slot uid : ℕ) → length (file_name r.directory slot uid (time uid)) < 64)
        → r.max_file_size ≡ limit
        → r.wavs ≡ done ++ ws
        → i ≡ length done
        → AllShow ws cs
        → Changed p r done cs (for_slots fopen_ok time garbage body (length cs) i r)
    unfolding Changed for_slots
    for_slots_lem [] r done ws i opens short l e n sh =
        (r, ws, [], refl, e, tt, sym (append-nil r.finished), tt, refl, refl, refl, refl)
    for_slots_lem (c ∷ cs) r done [] i opens short l e n sh = absurd sh
    for_slots_lem (c ∷ cs) r done (none ∷ ws) i opens short l e n sh = absurd sh
    for_slots_lem (closed ∷ cs) r done (some w ∷ ws) i opens short l e n sh =
        kept closed cs r done ws w i e n (v.at_closed r done ws w l e sh.0) sh.0 refl (
          for_slots_lem cs r (done ++ (some w ∷ [])) ws (i + 1) opens short l
            (e ∙ sym (append_assoc done (some w ∷ []) ws))
            (omega (arith, n, length-append done (some w ∷ []))) sh.1)
    for_slots_lem (recording ss ∷ cs) r done (some w ∷ ws) i opens short l e n sh =
        elim (Bool-cases (p ss)) [
          | inl chosen ↦
              let (r1, w1, old, e1, d1, v1, f1, h1, dir1, sb1, mc1, mf1) =
                swap-IsRecording r done ws w ss opens short e sh.0 in
              let (r2, ws2, olds, e2, d2, v2, f2, h2, dir2, sb2, mc2, mf2) =
                for_slots_lem cs r1 (done ++ (some w1 ∷ [])) ws (i + 1) opens (rw dir1 short)
                  (mf1 ∙ l) d1 (omega (arith, n, length-append done (some w1 ∷ []))) sh.1 in
              (
                r2,
                some w1 ∷ ws2,
                old ∷ olds,
                rw (n, v.at_recording r done ws w ss l e sh.0 ∙ if-true _ _ chosen ∙ e1, sym n) e2,
                d2 ∙ append_assoc done (some w1 ∷ []) ws2,
                (rw chosen v1, v2),
                f2 ∙ ap (λ k. k ++ olds) f1 ∙ append_assoc r.finished (old ∷ []) olds,
                rw chosen (h1, h2),
                dir2 ∙ dir1,
                sb2 ∙ sb1,
                mc2 ∙ mc1,
                mf2 ∙ mf1,
              )
          | inr passed ↦
              kept (recording ss) cs r done ws w i e n
                (v.at_recording r done ws w ss l e sh.0 ∙ if-false _ _ passed) (rw passed sh.0)
                (if-false _ _ passed)
                (for_slots_lem cs r (done ++ (some w ∷ [])) ws (i + 1) opens short l
                  (e ∙ sym (append_assoc done (some w ∷ []) ws))
                  (omega (arith, n, length-append done (some w ∷ []))) sh.1)
        ]
