-- ===== src/Writer/Stop.antt =====
-- What becomes of the messages when a writer of utils/writer.cpp is stopped.
use mathlib.Core.Path.{subst}
use recd.Common.{
  ℕ, ◌+◌, ◌≤◌, ◌≡◌, refl, sym, ap, Bool, true, false, Option, List, [], ◌∷◌, ◌++◌, append-nil,
  append_assoc, arith, length, if-false,
}
use recd.Writer.{
  Bytes, Place, idle, sleeping, flushing, Writer, write, start_writer, stop_writer, drain,
  write_file, turn_at, turn, Event, writes, starts, stops, turns, event, events,
}
use recd.Writer.Files.{concat, drain-append, written, write_file-append, write_file-nil}

-- Nobody starts the thread.
unfoldable pub no_starts : List Event → Bool
no_starts [] = true
no_starts (writes d ∷ es) = no_starts es
no_starts (starts ∷ es) = false
no_starts (stops ∷ es) = no_starts es
no_starts (turns ∷ es) = no_starts es

unfoldable pub turn_count : List Event → ℕ
turn_count [] = 0
turn_count (writes d ∷ es) = turn_count es
turn_count (starts ∷ es) = turn_count es
turn_count (stops ∷ es) = turn_count es
turn_count (turns ∷ es) = turn_count es + 1

-- What is written before the thread's first step, and from there on.
unfoldable pub before_turn : List Event → List Bytes
before_turn [] = []
before_turn (writes d ∷ es) = d ∷ before_turn es
before_turn (starts ∷ es) = before_turn es
before_turn (stops ∷ es) = before_turn es
before_turn (turns ∷ es) = []

unfoldable pub after_turn : List Event → List Bytes
after_turn [] = []
after_turn (writes d ∷ es) = after_turn es
after_turn (starts ∷ es) = after_turn es
after_turn (stops ∷ es) = after_turn es
after_turn (turns ∷ es) = written es

pub record HasEnded (w : Writer) (f : Option Bytes) (queue : List Bytes) : Type 0 where
  pub at_end : w.place ≡ idle
  pub in_file : w.file ≡ f
  pub in_queue : w.buffer ≡ queue

turn-place : (w : Writer) (p : Place) → w.place ≡ p → turn w ≡ turn_at p w
unfolding turn
turn-place w p h = ap (λ q. turn_at q w) h

-- The thread has ended: what is written stays in the queue.
events-idle :
    (es : List Event) (w : Writer)
    → no_starts es ≡ true
    → w.place ≡ idle
    → HasEnded (events es w) w.file (w.buffer ++ written es)
unfolding events event no_starts written write start_writer stop_writer turn_at
events-idle [] w ok h = record { at_end = h; in_file = refl; in_queue = sym (append-nil w.buffer) }
events-idle (writes d ∷ es) w ok h =
    subst (HasEnded (events es (write d w)) w.file) (append_assoc w.buffer (d ∷ []) (written es))
      (events-idle es (write d w) ok h)
events-idle (starts ∷ es) w ok h = absurd (ground (arith, ok))
events-idle (stops ∷ es) w ok h = events-idle es (stop_writer w) ok h
events-idle (turns ∷ es) w ok h = rw (turn-place w idle h) (events-idle es w ok h)

-- The thread is writing what it has taken, and will not sleep again.
pub events-flushing :
    (es : List Event) (w : Writer) (ds : List Bytes)
    → no_starts es ≡ true
    → w.is_running ≡ false
    → w.place ≡ flushing ds
    → length ds + 1 ≤ turn_count es
    → HasEnded (events es w) (write_file w.file (concat ds)) (w.buffer ++ written es)
unfolding events event no_starts written write start_writer stop_writer turn_at turn_count concat
events-flushing [] w ds ok r h n = absurd (omega arith)
events-flushing (writes d ∷ es) w ds ok r h n =
    subst (HasEnded (events es (write d w)) (write_file w.file (concat ds)))
      (append_assoc w.buffer (d ∷ []) (written es)) (events-flushing es (write d w) ds ok r h n)
events-flushing (starts ∷ es) w ds ok r h n = absurd (ground (arith, ok))
events-flushing (stops ∷ es) w ds ok r h n = events-flushing es (stop_writer w) ds ok refl h n
events-flushing (turns ∷ es) w [] ok r h n = rw (turn-place w (flushing []) h) (
    subst (λ f. HasEnded (events es (turn_at (flushing []) w)) f (w.buffer ++ written es))
      (sym (write_file-nil w.file))
      (events-idle es (turn_at (flushing []) w) ok (if-false {b = w.is_running} sleeping idle r)))
events-flushing (turns ∷ es) w (d ∷ ds) ok r h n = rw (turn-place w (flushing (d ∷ ds)) h) (
    subst (λ f. HasEnded (events es (turn_at (flushing (d ∷ ds)) w)) f (w.buffer ++ written es))
      (write_file-append w.file d (concat ds))
      (events-flushing es (turn_at (flushing (d ∷ ds)) w) ds ok r refl (omega arith)))

-- A writer whose thread sleeps when `stopWriter` has been called: the thread ends as soon as it has taken two
-- steps, and one for each message that is in the queue by the time it wakes up. The file then has those messages
-- behind what it had, and what is written later stays in the queue.
pub events_stopped :
    (es : List Event) (w : Writer)
    → no_starts es ≡ true
    → w.is_running ≡ false
    → w.place ≡ sleeping
    → length (w.buffer ++ before_turn es) + 2 ≤ turn_count es
    → HasEnded
        (events es w)
        (write_file w.file (concat (w.buffer ++ before_turn es)))
        (after_turn es)
unfolding events event no_starts before_turn after_turn write start_writer stop_writer turn_at
    turn_count
events_stopped [] w ok r h n = absurd (omega arith)
events_stopped (writes d ∷ es) w ok r h n =
    subst (λ q. HasEnded (events es (write d w)) (write_file w.file (concat q)) (after_turn es))
      (append_assoc w.buffer (d ∷ []) (before_turn es))
      (events_stopped es (write d w) ok r h
        (rw (append_assoc w.buffer (d ∷ []) (before_turn es)) n))
events_stopped (starts ∷ es) w ok r h n = absurd (ground (arith, ok))
events_stopped (stops ∷ es) w ok r h n = events_stopped es (stop_writer w) ok refl h n
events_stopped (turns ∷ es) w ok r h n =
    rw (turn-place w sleeping h, append-nil w.buffer)
      (subst
        (λ q. HasEnded (events es (turn_at sleeping w)) (write_file w.file (concat q)) (written es))
        (drain-append w.buffer [])
        (events-flushing es (turn_at sleeping w) (drain w.buffer []) ok r refl enough))
  where
    enough : length (drain w.buffer []) + 1 ≤ turn_count es
    enough = rw (drain-append w.buffer []) (omega (arith, n, ap length (append-nil w.buffer)))
