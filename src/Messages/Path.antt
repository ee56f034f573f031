-- ===== src/Messages/Path.antt =====
-- The way of messages from `sendMessage` (utils/ipc-msg.cpp) over `readyRead` (app/server.cpp) and the logger
-- (utils/logger.cpp) into the file of the writer (utils/writer.cpp).
use recd.Common.{
  ℕ, suc, ◌+◌, ◌≤◌, ◌≡◌, refl, sym, ap, ◌∙◌, List, [], ◌∷◌, ◌++◌, map, append-nil, append_assoc,
  arith, length, length-append, replicate, if-true, ltb,
}
use recd.Writer.{Bytes, Writer, idle, sleeping, write, stop_writer, write_file, turns, events}
use recd.Writer.Files.{concat, concat-append, all_bytes, waiting, write_file-append}
use recd.Writer.Json.{events-turns}
use recd.Writer.Logger.{Logger, log_message, deinit}
use recd.Messages.{send_message, Datagram, arrives, read_count, on_message, ready_read}

abbrev pub Message : Type 0
Message = Bytes × Bytes

abbrev pub text : Message → Bytes
text (caller, msg) = send_message caller msg

abbrev pub sent : Message → Datagram
sent m = arrives (text m)

on_message-sent : (m : Message) (l : Logger) → on_message (sent m) l ≡ log_message (text m) l
unfolding on_message read_count send_message
on_message-sent m l =
    if-true {b = ltb 0 (length (text m))} (log_message (text m) l) l (ground arith)

-- A logger that has been given more messages.
abbrev given : List Bytes → Logger → Logger
given ds l = record l { writer = record l.writer { buffer = l.writer.buffer ++ ds } }

given-log_message :
    (d : Bytes) (ds : List Bytes) (l : Logger) → given ds (log_message d l) ≡ given (d ∷ ds) l
unfolding log_message write
given-log_message d ds l =
    ap (λ q. record l { writer = record l.writer { buffer = q } })
      (append_assoc l.writer.buffer (d ∷ []) ds)

-- Nothing that was sent is dropped.
ready_read-sent :
    (ms : List Message) (l : Logger) → ready_read (map sent ms) l ≡ given (map text ms) l
unfolding ready_read
ready_read-sent [] l =
    ap (λ q. record l { writer = record l.writer { buffer = q } })
      (sym (append-nil l.writer.buffer))
ready_read-sent (m ∷ ms) l =
    ap (ready_read (map sent ms)) (on_message-sent m l)
    ∙ ready_read-sent ms (log_message (text m) l)
    ∙ given-log_message (text m) (map text ms) l

all_bytes-given :
    (ds : List Bytes) (l : Logger)
    → all_bytes (given ds l).writer ≡ write_file (all_bytes l.writer) (concat ds)
unfolding all_bytes waiting
all_bytes-given ds l = simp (write_file-append, concat-append, append_assoc)

length-map {ℓ κ} :
    {A : Type ℓ} {B : Type κ} (f : A → B) (xs : List A) → length (map f xs) ≡ length xs
length-map f [] = refl
length-map f (x ∷ xs) = ap suc (length-map f xs)

-- Messages that arrive as they were sent, read while the writer's thread sleeps, before the logger is stopped: the
-- thread ends after at most two steps and one for each message that waits, and then the file has every one of them
-- in order behind what it had and what had been logged before, each as "[module]:text" cut off at 511 bytes.
pub messages_reach_file :
    (ms : List Message) (l : Logger) (n : ℕ)
    → l.writer.place ≡ sleeping
    → length l.writer.buffer + length ms + 2 ≤ n
    → let w = events (replicate n turns) (deinit (ready_read (map sent ms) l)).writer in
      (w.place ≡ idle) × (w.file ≡ write_file (all_bytes l.writer) (concat (map text ms)))
unfolding deinit stop_writer all_bytes waiting
messages_reach_file ms l n h enough =
    rw (ready_read-sent ms l) (ended.0, ended.1 ∙ all_bytes-given (map text ms) l)
  where
    stopped : Writer
    stopped = stop_writer (given (map text ms) l).writer

    ended :
        ((events (replicate n turns) stopped).place ≡ idle)
        × ((events (replicate n turns) stopped).file ≡ all_bytes stopped)
    ended =
        events-turns n stopped refl h
          (omega (arith, length-append l.writer.buffer (map text ms), length-map text ms))
