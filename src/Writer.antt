-- ===== src/Writer.antt =====
-- utils/writer.cpp: `utils::Writer`, a queue of byte arrays that a thread of its own appends to a file. The queue is only
-- touched under the mutex, so each call of `write` and the thread's whole loop that empties the queue are one step.
pub mod Files
pub mod Stop
pub mod Json
pub mod Logger
mod Tests
use recd.Common.{ℕ, Bool, true, false, if◌then◌else◌, Option, none, some, List, [], ◌∷◌, ◌++◌}

abbrev pub Bytes : Type 0
Bytes = List ℕ

-- Where the thread is: not running, in `sleep`, or after the mutex with what is left of `dblBuff`.
pub data Place : Type 0 where
  idle : Place
  sleeping : Place
  flushing : List Bytes → Place

-- `file` is what `m_file` holds, and `none` as long as it is not open.
pub record Writer : Type 0 where
  pub target : Bytes
  pub file : Option Bytes
  pub speed : ℕ
  pub buffer : List Bytes
  pub is_running : Bool
  pub place : Place

-- The constructor.
abbrev pub new_writer : Writer
new_writer = record {
  target = [];
  file = none;
  speed = 1000;
  buffer = [];
  is_running = false;
  place = idle;
}

-- `setup`. `open_file` says what is in the file of a name that is opened for appending.
unfoldable pub setup : (Bytes → Option Bytes) → Bytes → ℕ → Writer → Bool × Writer
setup open_file fname log_speed w = elim w.file [
  | none ↦ (true, record w { target = fname; file = open_file fname; speed = log_speed })
  | some bytes ↦ (true, record w { speed = log_speed })
]

unfoldable pub write : Bytes → Writer → Writer
write d w = record w { buffer = w.buffer ++ (d ∷ []) }

-- `QThread::start` does nothing where the thread runs.
unfoldable pub started : Place → Place
started idle = sleeping
started sleeping = sleeping
started (flushing ds) = flushing ds

unfoldable pub start_writer : Writer → Writer
start_writer w = record w { is_running = true; place = started w.place }

unfoldable pub stop_writer : Writer → Writer
stop_writer w = record w { is_running = false }

-- `while (!m_buffer.isEmpty()) dblBuff.enqueue(m_buffer.dequeue());`
unfoldable pub drain : List Bytes → List Bytes → List Bytes
drain [] dbl = dbl
drain (d ∷ ds) dbl = drain ds (dbl ++ (d ∷ []))

-- `m_file.write`: a file that is not open takes nothing.
unfoldable pub write_file : Option Bytes → Bytes → Option Bytes
write_file none d = none
write_file (some bytes) d = some (bytes ++ d)

-- The next step of `run`: the sleep and the section under the mutex; one message written and flushed; or the test
-- of `m_isRunning`.
unfoldable pub turn_at : Place → Writer → Writer
turn_at idle w = w
turn_at sleeping w = record w { buffer = []; place = flushing (drain w.buffer []) }
turn_at (flushing (d ∷ ds)) w = record w { file = write_file w.file d; place = flushing ds }
turn_at (flushing []) w = record w { place = if w.is_running then sleeping else idle }

unfoldable pub turn : Writer → Writer
turn w = turn_at w.place w

-- What happens to a writer: the calls of the other threads, and the steps of its own.
pub data Event : Type 0 where
  writes : Bytes → Event
  starts : Event
  stops : Event
  turns : Event

unfoldable pub event : Event → Writer → Writer
event (writes d) w = write d w
event starts w = start_writer w
event stops w = stop_writer w
event turns w = turn w

unfoldable pub events : List Event → Writer → Writer
events [] w = w
events (e ∷ es) w = events es (event e w)
