-- ===== src/Recorder/Budget.antt =====
-- How long the files of recorder/recorder.cpp get under a limit of their size.
use recd.Common.{
  ℕ, zero, suc, ◌+◌, ◌*◌, ◌≡◌, ◌≤◌, refl, ap, ◌∙◌, Bool, List, [], ◌∷◌, ◌==◌, length, take, ltb,
  arith, length-append, length-take_bound, Bool-cases, inl, inr,
}
use recd.Server.{SampleData}
use recd.Recorder.Slots.{Channel, closed, recording, step, step_all, Fits}
use recd.Recorder.Changes.{change_where, changed_where}

-- The bytes of a file with these samples, and whether they are more than the limit.
abbrev pub file_bytes : List ℕ → ℕ
file_bytes ss = 2 * length ss + 44

abbrev pub over : ℕ → List ℕ → Bool
over limit ss = ltb limit (file_bytes ss)

-- What one list does to the channels: a file over the limit is changed first.
abbrev pub limited_list : ℕ → List Channel → List SampleData → List Channel
limited_list limit cs [] = cs
limited_list limit cs (s ∷ sd) = step_all (changed_where (over limit) cs) (s ∷ sd)

abbrev pub limited_lists : ℕ → List Channel → List (List SampleData) → List Channel
limited_lists limit cs [] = cs
limited_lists limit cs (sd ∷ sds) = limited_lists limit (limited_list limit cs sd) sds

-- A list has at most `k` entries, whose arrays are as long as their sizes say, and of at most `b` samples.
abbrev pub Sized : ℕ → ℕ → List SampleData → Type 0
Sized b k [] = Unit {0}
Sized b zero (s ∷ sd) = ⊥
Sized b (suc k) (s ∷ sd) = (s.size ≤ length s.samples) × (s.size ≤ b) × Sized b k sd

abbrev pub AllSized : ℕ → ℕ → List (List SampleData) → Type 0
AllSized b k [] = Unit {0}
AllSized b k (sd ∷ sds) = Sized b k sd × AllSized b k sds

-- No open file has more bytes.
abbrev pub Within : ℕ → Channel → Type 0
Within n closed = Unit {0}
Within n (recording ss) = file_bytes ss ≤ n

abbrev pub AllWithin : ℕ → List Channel → Type 0
AllWithin n [] = Unit {0}
AllWithin n (c ∷ cs) = Within n c × AllWithin n cs

pub Fits-Sized :
    (b : ℕ) (cs : List Channel) (sd : List SampleData) → Sized b (length cs) sd → Fits cs sd
Fits-Sized b [] [] h = tt
Fits-Sized b (c ∷ cs) [] h = tt
Fits-Sized b [] (s ∷ sd) h = absurd h
Fits-Sized b (c ∷ cs) (s ∷ sd) h = (h.0, Fits-Sized b cs sd h.2)

pub length-changed_where :
    (p : List ℕ → Bool) (cs : List Channel) → length (changed_where p cs) ≡ length cs
length-changed_where p [] = refl
length-changed_where p (c ∷ cs) = ap suc (length-changed_where p cs)

length-step_all : (cs : List Channel) (sd : List SampleData) → length (step_all cs sd) ≡ length cs
unfolding step_all
length-step_all [] [] = refl
length-step_all [] (s ∷ sd) = refl
length-step_all (c ∷ cs) [] = refl
length-step_all (c ∷ cs) (s ∷ sd) = ap suc (length-step_all cs sd)

pub length-limited_list :
    (limit : ℕ) (cs : List Channel) (sd : List SampleData)
    → length (limited_list limit cs sd) ≡ length cs
length-limited_list limit cs [] = refl
length-limited_list limit cs (s ∷ sd) =
    length-step_all (changed_where (over limit) cs) (s ∷ sd) ∙ length-changed_where (over limit) cs

-- After the change no file is over the limit, as a new one has 44 bytes.
Within-change : (limit : ℕ) (c : Channel) → 44 ≤ limit → Within limit (change_where (over limit) c)
Within-change limit closed h = tt
Within-change limit (recording ss) h = elim (Bool-cases (over limit ss)) [
  | inl long ↦ rw long (omega arith)
  | inr short ↦ rw short (ground arith)
]

Within-step :
    (limit b : ℕ) (c : Channel) (s : SampleData)
    → 44 ≤ limit
    → s.size ≤ b
    → Within limit c
    → Within (limit + 2 * b) (step c s)
unfolding step
Within-step limit b closed s h fits v = elim (Bool-cases (s.signal == 0)) [
  | inl quiet ↦ rw quiet tt
  | inr loud ↦ rw loud (omega arith)
]
Within-step limit b (recording ss) s h fits v = elim (Bool-cases (s.signal == 0)) [
  | inl quiet ↦ rw quiet tt
  | inr loud ↦
      rw loud (
        omega (arith, length-append ss (take s.size s.samples), length-take_bound s.size s.samples))
]

Within-more : (limit n : ℕ) (c : Channel) → limit ≤ n → Within limit c → Within n c
Within-more limit n closed h v = tt
Within-more limit n (recording ss) h v = omega arith

AllWithin-changed :
    (limit b : ℕ) (cs : List Channel)
    → 44 ≤ limit
    → AllWithin (limit + 2 * b) (changed_where (over limit) cs)
AllWithin-changed limit b [] h = tt
AllWithin-changed limit b (c ∷ cs) h = (
  Within-more limit (limit + 2 * b) (change_where (over limit) c) (omega arith)
      (Within-change limit c h),
  AllWithin-changed limit b cs h,
)

AllWithin-limited :
    (limit b : ℕ) (cs : List Channel) (sd : List SampleData)
    → 44 ≤ limit
    → Sized b (length cs) sd
    → AllWithin (limit + 2 * b) (step_all (changed_where (over limit) cs) sd)
unfolding step_all
AllWithin-limited limit b [] [] h z = tt
AllWithin-limited limit b [] (s ∷ sd) h z = absurd z
AllWithin-limited limit b (c ∷ cs) [] h z = (
  Within-more limit (limit + 2 * b) (change_where (over limit) c) (omega arith)
      (Within-change limit c h),
  AllWithin-changed limit b cs h,
)
AllWithin-limited limit b (c ∷ cs) (s ∷ sd) h z = (
  Within-step limit b (change_where (over limit) c) s h z.1 (Within-change limit c h),
  AllWithin-limited limit b cs sd h z.2,
)

pub limited_within :
    (sd : List SampleData) (cs : List Channel) (limit b : ℕ)
    → 44 ≤ limit
    → Sized b (length cs) sd
    → AllWithin (limit + 2 * b) cs
    → AllWithin (limit + 2 * b) (limited_list limit cs sd)
limited_within [] cs limit b h z v = v
limited_within (s ∷ sd) cs limit b h z v = AllWithin-limited limit b cs (s ∷ sd) h z
