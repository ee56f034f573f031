-- ===== src/Dtmf/Thread.antt =====
-- The thread of DFT/dtmf.cpp around the detector: what it takes of the buffer, what it prints of the detector's answer, and
-- `init` and `deinit`. `none` is an access outside an array or through a null pointer.
use recd.Common.{
  ℕ, zero, suc, ◌+◌, ◌≡◌, ◌≤◌, refl, sym, ap, ◌∙◌, Bool, true, false, Option, some, List, [], ◌∷◌,
  ◌++◌, ◌==◌, if◌then◌else◌, length, get_elem?, get_elem?-at, append_assoc, length-append, ltb,
  ◌>>=◌, collect, arith, if-false,
}
use recd.Server.{SampleData}

-- `m_isRunning`, whether `m_dtmfDetector` is an object, and the buffer.
pub record Dtmf : Type 0 where
  pub is_running : Bool
  pub has_detector : Bool
  pub buffer : List SampleData

-- The constructor.
abbrev pub new_dtmf : Dtmf
new_dtmf = record { is_running = false; has_detector = false; buffer = [] }

unfoldable pub init : Dtmf → Dtmf
init d = record d { is_running = true; has_detector = true }

unfoldable pub deinit : Dtmf → Dtmf
deinit d = record d { is_running = false; has_detector = false }

-- The second time that the lock is held: the entries that have been counted the first time are appended, and the buffer
-- is cleared.
unfoldable pub take_counted : ℕ → List SampleData → Option (List SampleData × List SampleData)
take_counted buff_size data_ = collect buff_size 0 (get_elem? data_) >>= λ dbl. some (dbl, [])

-- `s_DialButtons`: "123A456B789C*0#D"
abbrev pub dial_buttons : List ℕ
dial_buttons = 49 ∷ 50 ∷ 51 ∷ 65 ∷ 52 ∷ 53 ∷ 54 ∷ 66 ∷ 55 ∷ 56 ∷ 57 ∷ 67 ∷ 42 ∷ 48 ∷ 35 ∷ 68 ∷ []

-- The loop over `ii`, from `ii` on with `n` rounds left: what is printed, each button with its place.
unfoldable pub print_buttons : ℕ → ℕ → List ℕ → List ℕ → Option (List (ℕ × ℕ))
print_buttons zero ii dial buttons = some []
print_buttons (suc n) ii dial buttons = get_elem? dial ii >>= λ d. get_elem? buttons ii >>= λ b.
    print_buttons n (ii + 1) dial buttons >>= λ rest. some (if d == b then (ii, b) ∷ rest else rest)

-- What is printed for this many detected buttons; none if there are none.
unfoldable pub show_buttons : ℕ → List ℕ → Option (List (ℕ × ℕ))
show_buttons d dial =
    let shown = print_buttons d 0 dial dial_buttons in if ltb d 1 then some [] else shown

-- The places, from `i` on, at which two lists have the same button.
abbrev pub agreeing : ℕ → List ℕ → List ℕ → List (ℕ × ℕ)
agreeing i [] bs = []
agreeing i (d ∷ ds) [] = []
agreeing i (d ∷ ds) (b ∷ bs) =
    if d == b then (i, b) ∷ agreeing (i + 1) ds bs else agreeing (i + 1) ds bs

collect-taken :
    (done xs more : List SampleData)
    → collect (length xs) (length done) (get_elem? (done ++ (xs ++ more))) ≡ some xs
unfolding collect
collect-taken done [] more = refl
collect-taken done (x ∷ xs) more = rw (get_elem?-at done (xs ++ more) x) (
    ap (λ o. o >>= λ ls. some (x ∷ ls))
      (ap (λ l. collect (length xs) (length done + 1) (get_elem? l))
          (sym (append_assoc done (x ∷ []) (xs ++ more)))
        ∙ ap (λ n. collect (length xs) n (get_elem? ((done ++ (x ∷ [])) ++ (xs ++ more))))
            {x = length done + 1} {y = length (done ++ (x ∷ []))}
            (omega (arith, length-append done (x ∷ [])))
        ∙ collect-taken (done ++ (x ∷ [])) xs more))

-- Entries that are put between the count and the copy are in neither list: the buffer is cleared with them in it.
pub take_counted-length :
    (xs more : List SampleData) → take_counted (length xs) (xs ++ more) ≡ some (xs, [])
unfolding take_counted
take_counted-length xs more = rw (collect-taken [] xs more) refl

print_buttons_lem :
    (done done' ds bs : List ℕ)
    → length done ≡ length done'
    → length ds ≤ length bs
    → print_buttons (length ds) (length done) (done ++ ds) (done' ++ bs)
      ≡ some (agreeing (length done) ds bs)
unfolding print_buttons
print_buttons_lem done done' [] bs e h = refl
print_buttons_lem done done' (d ∷ ds) [] e h = absurd (omega arith)
print_buttons_lem done done' (d ∷ ds) (b ∷ bs) e h =
    let one : length (done ++ (d ∷ [])) ≡ length done + 1 = length-append done (d ∷ []) in
    let more =
      print_buttons_lem (done ++ (d ∷ [])) (done' ++ (b ∷ [])) ds bs
        (omega (arith, e, length-append done (d ∷ []), length-append done' (b ∷ [])))
        (omega arith) in
    rw
      (
        get_elem?-at done ds d,
        ap (get_elem? (done' ++ (b ∷ bs))) e ∙ get_elem?-at done' bs b,
        rw (one, append_assoc done (d ∷ []) ds, append_assoc done' (b ∷ []) bs) at more,
      )
      refl

-- As many buttons as the detector has found, at most 16: those are printed that stand at their place in "123A456B789C*0#D".
pub show_buttons_lem :
    (dial : List ℕ)
    → length dial ≤ 16
    → show_buttons (length dial) dial ≡ some (agreeing 0 dial dial_buttons)
unfolding show_buttons
show_buttons_lem [] h = refl
show_buttons_lem (d ∷ ds) h =
    if-false {b = ltb (suc (length ds)) 1} _ _ (ground arith)
    ∙ print_buttons_lem [] [] (d ∷ ds) dial_buttons refl h
