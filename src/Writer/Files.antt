-- ===== src/Writer/Files.antt =====
-- What the file, the thread and the queue of a writer hold together (utils/writer.cpp).
use recd.Common.{
  ◌≡◌, refl, sym, ap, ◌∙◌, Option, none, some, List, [], ◌∷◌, ◌++◌, append-nil, append_assoc, Bool,
  true, false, if◌then◌else◌,
}
use recd.Writer.{
  Bytes, Place, idle, sleeping, flushing, Writer, write, started, start_writer, stop_writer, drain,
  write_file, turn_at, turn, Event, writes, starts, stops, turns, event, events,
}

unfoldable pub concat : List Bytes → Bytes
concat [] = []
concat (d ∷ ds) = d ++ concat ds

pub concat-append : (ds es : List Bytes) → concat (ds ++ es) ≡ concat ds ++ concat es
unfolding concat
concat-append [] es = refl
concat-append (d ∷ ds) es =
    ap (λ k. d ++ k) (concat-append ds es) ∙ sym (append_assoc d (concat ds) (concat es))

pub drain-append : (ds dbl : List Bytes) → drain ds dbl ≡ dbl ++ ds
unfolding drain
drain-append [] dbl = sym (append-nil dbl)
drain-append (d ∷ ds) dbl = drain-append ds (dbl ++ (d ∷ [])) ∙ append_assoc dbl (d ∷ []) ds

-- What the thread has taken from the queue and not written yet.
unfoldable pub taken : Place → List Bytes
taken idle = []
taken sleeping = []
taken (flushing ds) = ds

unfoldable pub waiting : Writer → Bytes
waiting w = concat (taken w.place) ++ concat w.buffer

unfoldable pub written : List Event → List Bytes
written [] = []
written (writes d ∷ es) = d ∷ written es
written (starts ∷ es) = written es
written (stops ∷ es) = written es
written (turns ∷ es) = written es

-- The file, followed by what waits to be written to it.
unfoldable pub all_bytes : Writer → Option Bytes
all_bytes w = write_file w.file (waiting w)

pub write_file-append :
    (f : Option Bytes) (a b : Bytes) → write_file (write_file f a) b ≡ write_file f (a ++ b)
unfolding write_file
write_file-append none a b = refl
write_file-append (some bytes) a b = ap some (append_assoc bytes a b)

pub write_file-nil : (f : Option Bytes) → write_file f [] ≡ f
unfolding write_file
write_file-nil none = refl
write_file-nil (some bytes) = ap some (append-nil bytes)

taken-if : (b : Bool) → taken (if b then sleeping else idle) ≡ []
unfolding taken
taken-if true = refl
taken-if false = refl

all_bytes-turn_at : (p : Place) (w : Writer) → w.place ≡ p → all_bytes (turn_at p w) ≡ all_bytes w
unfolding all_bytes waiting turn_at taken concat
all_bytes-turn_at idle w h = refl
all_bytes-turn_at sleeping w h =
    rw (h, drain-append w.buffer []) (simp (append-nil (concat w.buffer)))
all_bytes-turn_at (flushing []) w h = rw (h, taken-if w.is_running) refl
all_bytes-turn_at (flushing (d ∷ ds)) w h = rw h (simp (write_file-append, append_assoc))

taken-started : (p : Place) → taken (started p) ≡ taken p
unfolding taken started
taken-started idle = refl
taken-started sleeping = refl
taken-started (flushing ds) = refl

pub all_bytes-turn : (w : Writer) → all_bytes (turn w) ≡ all_bytes w
unfolding turn
all_bytes-turn w = all_bytes-turn_at w.place w refl

pub all_bytes-write : (d : Bytes) (w : Writer) → all_bytes (write d w) ≡ write_file (all_bytes w) d
unfolding all_bytes waiting write concat
all_bytes-write d w = simp (write_file-append, append_assoc, concat-append, append-nil)

all_bytes-event :
    (e : Event) (w : Writer)
    → all_bytes (event e w) ≡ write_file (all_bytes w) (concat (written (e ∷ [])))
unfolding all_bytes waiting event written concat write start_writer stop_writer turn
all_bytes-event (writes d) w = simp (all_bytes-write d w, append-nil)
all_bytes-event starts w = simp (write_file-append, append-nil, taken-started)
all_bytes-event stops w = simp (write_file-append, append-nil)
all_bytes-event turns w = simp (write_file-append, append-nil, all_bytes-turn w)

concat-written :
    (e : Event) (es : List Event)
    → concat (written (e ∷ es)) ≡ concat (written (e ∷ [])) ++ concat (written es)
unfolding written concat
concat-written (writes d) es = simp append-nil
concat-written starts es = refl
concat-written stops es = refl
concat-written turns es = refl

-- Whatever the calls and the thread do, in whatever order: what is in the file, taken and queued together is what
-- it was, followed by everything that was written to the writer meanwhile, in order.
pub all_bytes-events :
    (es : List Event) (w : Writer)
    → all_bytes (events es w) ≡ write_file (all_bytes w) (concat (written es))
unfolding events written concat all_bytes
all_bytes-events [] w = simp (write_file-append, append-nil)
all_bytes-events (e ∷ es) w =
    all_bytes-events es (event e w)
    ∙ ap (λ k. write_file k (concat (written es))) (all_bytes-event e w)
    ∙ write_file-append (all_bytes w) _ _
    ∙ ap (write_file (all_bytes w)) (sym (concat-written e es))
