-- ===== src/Capture/Overrun.antt =====
-- What a reader of the entries of alsa-rec/qcapdev.cpp finds.
use recd.Common.{
  ℕ, zero, suc, ◌+◌, ◌*◌, ◌^◌, ◌≡◌, ◌<◌, ◌≤◌, refl, none, List, [], ◌∷◌, length, get_elem?, arith,
  collect, ltb, get_elem?-eq-get_or, Bool-cases, inl, inr,
}
use recd.Server.{u32}
use recd.TcpServer.{samples_of}
use recd.Capture.{ready_entry}
use recd.Dtmf.{entry_samples}

get_elem?-none : (xs : List ℕ) (i : ℕ) → length xs ≤ i → get_elem? xs i ≡ none
get_elem?-none [] i h = refl
get_elem?-none (x ∷ xs) zero h = absurd (omega arith)
get_elem?-none (x ∷ xs) (suc i) h = get_elem?-none xs i (omega arith)

-- A loop over more elements than the list has reads outside of it.
collect-get_elem? :
    (n i : ℕ) (xs : List ℕ) → length xs < i + n → 0 < n → collect n i (get_elem? xs) ≡ none
unfolding collect
collect-get_elem? zero i xs l h = absurd (omega arith)
collect-get_elem? (suc n) i xs l h = elim (Bool-cases (ltb i (length xs))) [
  | inl inside ↦
      rw
        (
          get_elem?-eq-get_or xs i 0 (ground arith),
          collect-get_elem? n (i + 1) xs (omega arith) (ground arith),
        )
        refl
  | inr outside ↦ rw (get_elem?-none xs i (ground arith)) refl
]

length-samples_of : (bs : List ℕ) → length (samples_of bs) * 2 ≤ length bs
unfolding samples_of
length-samples_of [] = omega arith
length-samples_of (lo ∷ []) = omega arith
length-samples_of (lo ∷ hi ∷ bs) = let ih = length-samples_of bs in omega arith

-- The entry of one byte or more has a size that is larger than its array: reading as many samples as the size says reads
-- outside the bytes.
pub entry_samples-ready_entry :
    (bytes : List ℕ)
    → 0 < length bytes
    → length bytes < 2 ^ 32
    → entry_samples (ready_entry bytes) ≡ none
unfolding ready_entry entry_samples
entry_samples-ready_entry bytes h b =
    let half = length-samples_of bytes in
    collect-get_elem? (u32 (length bytes)) 0 (samples_of bytes) (omega arith) (omega arith)
