-- ===== src/Wav/Recording.antt =====
-- What `open`, `write` and `close` of utils/wav-writer.cpp leave in the file of an object.
use recd.Common.{
  ℕ, ◌+◌, ◌*◌, ◌/◌, ◌%◌, ◌^◌, ◌≡◌, ◌≤◌, ◌<◌, refl, sym, ap, ◌∙◌, true, false, Option, some, List,
  [], ◌∷◌, ◌++◌, arith, length, take, append-nil, append_assoc, length-append, if-true, leb, ltb,
  if◌then◌else◌, ◌>>=◌,
}
use mathlib.Core.Path.{subst}
use recd.Wav.{
  WavHdr, hdr_bytes, sample_bytes, create, Wav, open_file, closed_file, open_wav, write, close,
  setup_default, finish, fwrite,
}
use recd.Wav.Growth.{at_end, file, with_lengths, fwrite-at_end, finish-at_end}

-- An object that has its file open, with a header and these samples in it.
pub record IsRecording (w : Wav) (ss : List ℕ) : Type 0 where
  pub opened : w.is_opened ≡ true
  pub content : w.m_file ≡ open_file (at_end (hdr_bytes w.header ++ sample_bytes ss))

-- The header that `open` writes.
abbrev pub header_of : Wav → WavHdr
header_of w = if w.is_setup then w.header else (setup_default w).header

pub sample_bytes-append :
    (xs ys : List ℕ) → sample_bytes (xs ++ ys) ≡ sample_bytes xs ++ sample_bytes ys
sample_bytes-append [] ys = refl
sample_bytes-append (x ∷ xs) ys = ap (λ l. x % 256 ∷ x / 256 % 256 ∷ l) (sample_bytes-append xs ys)

pub length-sample_bytes : (ss : List ℕ) → length (sample_bytes ss) ≡ 2 * length ss
length-sample_bytes [] = refl
length-sample_bytes (s ∷ ss) = omega (arith, length-sample_bytes ss)

pub open_wav-IsRecording : (w : Wav) (slot : ℕ) → IsRecording (open_wav true w slot).0 []
unfolding open_wav
open_wav-IsRecording w slot = record {
  opened = refl;
  content = ap open_file (fwrite-at_end [] _ ∙ ap at_end (sym (append-nil _)));
}

-- A name of less than 64 bytes makes an object, without an open file.
pub create_lem :
    (garbage : WavHdr) (fname : List ℕ)
    → length fname < 64
    → (w : Wav) × (create garbage fname ≡ some w) × (w.is_opened ≡ false)
unfolding create
create_lem garbage fname short = (_, if-true {b = ltb (length fname) 64} _ _ (ground arith), refl)

pub write-IsRecording :
    (w : Wav) (ss data_ : List ℕ) (len : ℕ)
    → IsRecording w ss
    → len ≤ length data_
    → (w' : Wav) × (r : ℕ) × (write w data_ len ≡ some (w', r))
      × (w'.header ≡ w.header)
      × (w'.max_size ≡ (w.max_size + len) % 2 ^ 64)
      × IsRecording w' (ss ++ take len data_)
unfolding write
write-IsRecording w ss data_ len v h = (
  w',
  size % 2 ^ 32,
  rw v.content (if-true {b = leb len (length data_)} _ _ (ground arith)),
  refl,
  refl,
  record { opened = v.opened; content = ap open_file grown },
)
  where
    size : ℕ
    size = (w.max_size + len) % 2 ^ 64

    more : List ℕ
    more = sample_bytes (take len data_)

    w' : Wav
    w' = record w {
      m_file = open_file (fwrite (at_end (hdr_bytes w.header ++ sample_bytes ss)) more);
      max_size = size;
    }

    grown :
        fwrite (at_end (hdr_bytes w.header ++ sample_bytes ss)) more
        ≡ at_end (hdr_bytes w.header ++ sample_bytes (ss ++ take len data_))
    grown =
        fwrite-at_end (hdr_bytes w.header ++ sample_bytes ss) more
        ∙ ap at_end (
            append_assoc (hdr_bytes w.header) (sample_bytes ss) more
            ∙ ap (λ l. hdr_bytes w.header ++ l) (sym (sample_bytes-append ss (take len data_))))

pub close-IsRecording :
    (w : Wav) (ss : List ℕ)
    → IsRecording w ss
    → (w' : Wav) × (close w ≡ some w')
      × (w'.is_opened ≡ false)
      × (w'.m_file
          ≡ closed_file (
              file
                (hdr_bytes
                    (with_lengths w.header ((2 * length ss + 36) % 2 ^ 32) (2 * length ss % 2 ^ 32))
                  ++ sample_bytes ss)
                8))
unfolding close
close-IsRecording w ss v = (
  record w {
    m_file = closed_file (finish (at_end (hdr_bytes w.header ++ sample_bytes ss)));
    is_opened = false;
  },
  if-true _ _ v.opened ∙ rw v.content refl,
  refl,
  ap closed_file (rw (finish-at_end w.header (sample_bytes ss), length-sample_bytes ss) refl),
)

-- Several writes of whole arrays.
pub write_all : Wav → List (List ℕ) → Option Wav
write_all w [] = some w
write_all w (b ∷ bs) = write w b (length b) >>= λ (w', r). write_all w' bs

abbrev pub concat : List (List ℕ) → List ℕ
concat [] = []
concat (b ∷ bs) = b ++ concat bs

take-length : (xs : List ℕ) → take (length xs) xs ≡ xs
take-length [] = refl
take-length (x ∷ xs) = ap (λ l. x ∷ l) (take-length xs)

pub write_all-IsRecording :
    (bs : List (List ℕ)) (w : Wav) (ss : List ℕ)
    → IsRecording w ss
    → (w' : Wav) × (write_all w bs ≡ some w')
      × (w'.header ≡ w.header)
      × (w'.max_size % 2 ^ 64 ≡ (w.max_size + length (concat bs)) % 2 ^ 64)
      × IsRecording w' (ss ++ concat bs)
unfolding write_all
write_all-IsRecording [] w ss v =
    (w, refl, refl, omega arith, subst (IsRecording w) (sym (append-nil ss)) v)
write_all-IsRecording (b ∷ bs) w ss v =
    let (w1, r, e1, h1, m1, v1) = write-IsRecording w ss b (length b) v (omega arith) in
    let (w2, e2, h2, m2, v2) = write_all-IsRecording bs w1 (ss ++ take (length b) b) v1 in
    (w2, rw e1 e2, h2 ∙ h1, total w1.max_size w2.max_size m1 m2, subst (IsRecording w2) same v2)
  where
    total :
        (n k : ℕ)
        → n ≡ (w.max_size + length b) % 2 ^ 64
        → k % 2 ^ 64 ≡ (n + length (concat bs)) % 2 ^ 64
        → k % 2 ^ 64 ≡ (w.max_size + length (b ++ concat bs)) % 2 ^ 64
    total n k first rest = omega (arith, first, rest, length-append b (concat bs))

    same : (ss ++ take (length b) b) ++ concat bs ≡ ss ++ (b ++ concat bs)
    same = rw (take-length b) (append_assoc ss b (concat bs))
