-- ===== src/Daemon/Handlers.antt =====
-- Which signals `registerAppData` of app/unix/daemon.cpp takes over.
use mathlib.Core.Path.{subst}
use recd.Common.{
  ℕ, zero, suc, ◌+◌, ◌≤◌, ◌≡◌, inl, inr, refl, sym, ap, ◌∙◌, Bool, true, ◌||◌, ◌==◌, if◌then◌else◌,
  some, at, at_self, ==_iff, Bool-cases, arith, ltb, ◌>>=◌, if-true, if-false,
}
use recd.Daemon.{
  test_sig, Signals, no_handlers, sigaction, attach_signal_handler, attach_all, register_app_data,
}

-- The slots 1 to `n` have been handled; SIGHUP with them from the first round on.
record AreHandled (may_change : ℕ → Bool) (n : ℕ) (s : Signals) : Type 0 where
  pub in_table : (i : ℕ) → 1 ≤ i → i ≤ n → s.table i ≡ test_sig
  pub handled : (i : ℕ) → 1 ≤ i → i ≤ n → may_change i ≡ true → s.handlers i ≡ test_sig

table-sigaction :
    (may_change : ℕ → Bool) (k : ℕ) (s : Signals) → (sigaction may_change k s).table ≡ s.table
unfolding sigaction
table-sigaction may_change k s = elim (Bool-cases (may_change k)) [
  | inl may ↦ rw may refl
  | inr stuck ↦ rw stuck refl
]

-- A handler that is in the table is not lost.
sigaction_keeps :
    (may_change : ℕ → Bool) (k i : ℕ) (s : Signals)
    → s.table i ≡ test_sig
    → s.handlers i ≡ test_sig
    → (sigaction may_change k s).handlers i ≡ test_sig
unfolding sigaction
sigaction_keeps may_change k i s t h = elim (Bool-cases (may_change k)) [
  | inl may ↦ rw may (elim (Bool-cases (i == k)) [
    | inl same ↦ if-true {b = i == k} _ _ same ∙ sym (ap s.table ((==_iff i k).0 same)) ∙ t
    | inr other ↦ if-false {b = i == k} _ _ other ∙ h
  ])
  | inr stuck ↦ rw stuck h
]

sigaction_sets :
    (may_change : ℕ → Bool) (k : ℕ) (s : Signals)
    → may_change k ≡ true
    → s.table k ≡ test_sig
    → (sigaction may_change k s).handlers k ≡ test_sig
unfolding sigaction
sigaction_sets may_change k s may t = rw may (at_self s.handlers k (s.table k) ∙ t)

abbrev attached : (ℕ → Bool) → ℕ → Signals → Signals
attached may_change slot s =
    sigaction may_change slot
      (sigaction may_change 1 (record s { table = at s.table slot test_sig }))

attach_lem :
    (may_change : ℕ → Bool) (slot : ℕ) (s : Signals)
    → 1 ≤ slot
    → slot ≤ 31
    → may_change 1 ≡ true
    → attach_signal_handler may_change test_sig slot s ≡ some (attached may_change slot s)
unfolding attach_signal_handler
attach_lem may_change slot s l h may =
    if-false {b = ltb slot 1 || ltb 31 slot} _ _ (ground arith) ∙ if-true {b = may_change 1} _ _ may

abbrev with_slot : ℕ → Signals → Signals
with_slot slot s = record s { table = at s.table slot test_sig }

table-with_slot :
    (may_change : ℕ → Bool) (n i : ℕ) (s : Signals)
    → AreHandled may_change n s
    → 1 ≤ i
    → i ≤ n + 1
    → (with_slot (n + 1) s).table i ≡ test_sig
table-with_slot may_change n i s v l h = elim (Bool-cases (i == n + 1)) [
  | inl same ↦ if-true {b = i == n + 1} _ _ same
  | inr other ↦ if-false {b = i == n + 1} _ _ other ∙ v.in_table i l (ground (arith, other))
]

attached-AreHandled :
    (may_change : ℕ → Bool) (n : ℕ) (s : Signals)
    → AreHandled may_change n s
    → AreHandled may_change (n + 1) (attached may_change (n + 1) s)
attached-AreHandled may_change n s v = record {
  in_table = λ i l h. ap (λ t. t i) tables ∙ table-with_slot may_change n i s v l h;
  handled = λ i l h may. elim (Bool-cases (i == n + 1)) [
    | inl same ↦
        let e : i ≡ n + 1 = (==_iff i (n + 1)).0 same in
        rw e (
          sigaction_sets may_change (n + 1) first (sym (ap may_change e) ∙ may) (
            ap (λ t. t (n + 1)) (table-sigaction may_change 1 (with_slot (n + 1) s))
            ∙ at_self s.table (n + 1) test_sig))
    | inr other ↦
        sigaction_keeps may_change (n + 1) i first
          (ap (λ t. t i) (table-sigaction may_change 1 (with_slot (n + 1) s))
            ∙ table-with_slot may_change n i s v l h)
          (sigaction_keeps may_change 1 i (with_slot (n + 1) s)
            (table-with_slot may_change n i s v l h) (v.handled i l (ground (arith, other)) may))
  ];
}
  where
    first : Signals
    first = sigaction may_change 1 (with_slot (n + 1) s)

    tables : (attached may_change (n + 1) s).table ≡ (with_slot (n + 1) s).table
    tables =
        table-sigaction may_change (n + 1) first
        ∙ table-sigaction may_change 1 (with_slot (n + 1) s)

attach_all_lem :
    (may_change : ℕ → Bool) (rounds n : ℕ) (s : Signals)
    → may_change 1 ≡ true
    → n + rounds ≤ 31
    → AreHandled may_change n s
    → (s' : Signals) × (attach_all may_change rounds (n + 1) s ≡ some s')
      × AreHandled may_change (n + rounds) s'
unfolding attach_all
attach_all_lem may_change zero n s may h v =
    (s, refl, subst (λ k. AreHandled may_change k s) (omega arith) v)
attach_all_lem may_change (suc rounds) n s may h v =
    let (s', done, v') =
      attach_all_lem may_change rounds (n + 1) (attached may_change (n + 1) s) may (omega arith)
        (attached-AreHandled may_change n s v) in
    (
      s',
      ap (λ o. o >>= λ t. attach_all may_change rounds (n + 1 + 1) t)
            (attach_lem may_change (n + 1) s (omega arith) (omega arith) may)
          ∙ done,
      subst (λ k. AreHandled may_change k s') (omega arith) v',
    )

-- If the system lets SIGHUP be handled: after `registerAppData` each of the signals 1 to 31 that the system lets be
-- handled goes to `testSig`.
pub register_app_data_lem :
    (may_change : ℕ → Bool) (has_data : Bool) (i : ℕ)
    → may_change 1 ≡ true
    → 1 ≤ i
    → i ≤ 31
    → may_change i ≡ true
    → (s : Signals) × (register_app_data may_change has_data no_handlers ≡ some s)
      × (s.handlers i ≡ test_sig)
unfolding register_app_data
register_app_data_lem may_change has_data i may l h ok =
    let (s, done, v) = attach_all_lem may_change 31 0 start may (omega arith) none_yet in
    (s, done, v.handled i l h ok)
  where
    start : Signals
    start = if has_data then record no_handlers { has_app = true } else no_handlers

    none_yet : AreHandled may_change 0 start
    none_yet = record {
      in_table = λ i l h. absurd (omega arith);
      handled = λ i l h ok. absurd (omega arith);
    }
