-- ===== src/Writer/Json.antt =====
-- app/utils/json-writer.cpp: `JsonWriter`, which collects text and hands it to a writer of its own. A tag is the bytes that
-- `append` makes of it.
use recd.Common.{
  ℕ, ◌+◌, ◌≤◌, ◌≡◌, refl, sym, ap, ◌∙◌, true, false, Option, List, [], ◌∷◌, ◌++◌, zero, suc,
  if◌then◌else◌, append-nil, arith, length, replicate,
}
use recd.Writer.{
  Bytes, idle, sleeping, Writer, new_writer, setup, write, started, start_writer, stop_writer,
  write_file, turn, turns, event, events,
}
use recd.Writer.Files.{
  concat, taken, waiting, all_bytes, write_file-append, write_file-nil, all_bytes-turn,
  all_bytes-write,
}
use recd.Writer.Stop.{no_starts, turn_count, before_turn, after_turn, HasEnded, events_stopped}

pub record JsonWriter : Type 0 where
  pub json : Bytes
  pub writer : Writer

abbrev pub new_json : JsonWriter
new_json = record { json = []; writer = new_writer }

-- "metainfo.json"
abbrev pub json_name : Bytes
json_name = 109 ∷ 101 ∷ 116 ∷ 97 ∷ 105 ∷ 110 ∷ 102 ∷ 111 ∷ 46 ∷ 106 ∷ 115 ∷ 111 ∷ 110 ∷ []

unfoldable pub init : (Bytes → Option Bytes) → JsonWriter → JsonWriter
init open_file j =
    let (ok, w) = setup open_file json_name 500 j.writer in
    record j { writer = if ok then start_writer w else w }

unfoldable pub add : Bytes → JsonWriter → JsonWriter
add tag j = record j { json = j.json ++ tag }

unfoldable pub write_json : JsonWriter → JsonWriter
write_json j = record j { json = []; writer = write j.json j.writer }

-- `if (m_json.count() > 0) m_writer.write(m_json);`
unfoldable pub flush_rest : Bytes → Writer → Writer
flush_rest [] w = w
flush_rest (c ∷ cs) w = write (c ∷ cs) w

-- What is left is written, and stays in `m_json`.
unfoldable pub deinit : JsonWriter → JsonWriter
deinit j = record j { writer = stop_writer (flush_rest j.json j.writer) }

-- The calls of the users and the steps of the writer's thread.
pub data JsonEvent : Type 0 where
  adds : Bytes → JsonEvent
  writes_json : JsonEvent
  takes_turn : JsonEvent

unfoldable pub json_event : JsonEvent → JsonWriter → JsonWriter
json_event (adds tag) j = add tag j
json_event writes_json j = write_json j
json_event takes_turn j = record j { writer = turn j.writer }

unfoldable pub json_events : List JsonEvent → JsonWriter → JsonWriter
json_events [] j = j
json_events (e ∷ es) j = json_events es (json_event e j)

unfoldable pub tags : List JsonEvent → List Bytes
tags [] = []
tags (adds tag ∷ es) = tag ∷ tags es
tags (writes_json ∷ es) = tags es
tags (takes_turn ∷ es) = tags es

-- The file, what waits to be written to it, and what has not been written to the writer.
unfoldable pub everything : JsonWriter → Option Bytes
everything j = write_file (all_bytes j.writer) j.json

everything-json_event :
    (e : JsonEvent) (j : JsonWriter)
    → everything (json_event e j) ≡ write_file (everything j) (concat (tags (e ∷ [])))
unfolding everything json_event tags concat add write_json event
everything-json_event (adds tag) j = simp (write_file-append, append-nil)
everything-json_event writes_json j = simp (write_file-nil, all_bytes-write j.json j.writer)
everything-json_event takes_turn j = simp (write_file-nil, all_bytes-turn j.writer)

concat-tags :
    (e : JsonEvent) (es : List JsonEvent)
    → concat (tags (e ∷ es)) ≡ concat (tags (e ∷ [])) ++ concat (tags es)
unfolding tags concat
concat-tags (adds tag) es = simp append-nil
concat-tags writes_json es = refl
concat-tags takes_turn es = refl

everything-json_events :
    (es : List JsonEvent) (j : JsonWriter)
    → everything (json_events es j) ≡ write_file (everything j) (concat (tags es))
unfolding json_events tags concat
everything-json_events [] j = sym (write_file-nil (everything j))
everything-json_events (e ∷ es) j =
    everything-json_events es (json_event e j)
    ∙ ap (λ k. write_file k (concat (tags es))) (everything-json_event e j)
    ∙ write_file-append (everything j) _ _
    ∙ ap (write_file (everything j)) (sym (concat-tags e es))

all_bytes-flush_rest :
    (json : Bytes) (w : Writer) → all_bytes (flush_rest json w) ≡ write_file (all_bytes w) json
unfolding flush_rest
all_bytes-flush_rest [] w = sym (write_file-nil (all_bytes w))
all_bytes-flush_rest (c ∷ cs) w = all_bytes-write (c ∷ cs) w

place-flush_rest : (json : Bytes) (w : Writer) → (flush_rest json w).place ≡ w.place
unfolding flush_rest write
place-flush_rest [] w = refl
place-flush_rest (c ∷ cs) w = refl

everything-init :
    (open_file : Bytes → Option Bytes) → everything (init open_file new_json) ≡ open_file json_name
unfolding init setup start_writer started everything all_bytes waiting taken concat
everything-init open_file = simp write_file-nil

only_turns_lem :
    (n : ℕ)
    → (no_starts (replicate n turns) ≡ true)
      × (turn_count (replicate n turns) ≡ n)
      × (before_turn (replicate n turns) ≡ [])
unfolding no_starts turn_count before_turn
only_turns_lem zero = (refl, refl, refl)
only_turns_lem (suc n) = ((only_turns_lem n).0, omega (arith, (only_turns_lem n).1), refl)

-- A writer that has been stopped in its sleep and is left to itself ends, with all that it was given in the file.
pub events-turns :
    (n : ℕ) (w : Writer)
    → w.is_running ≡ false
    → w.place ≡ sleeping
    → length w.buffer + 2 ≤ n
    → let w' = events (replicate n turns) w in (w'.place ≡ idle) × (w'.file ≡ all_bytes w)
unfolding all_bytes waiting taken concat
events-turns n w r h enough = (ended.at_end, ended.in_file ∙ in_all)
  where
    none_before : w.buffer ++ before_turn (replicate n turns) ≡ w.buffer
    none_before = ap (λ q. w.buffer ++ q) (only_turns_lem n).2 ∙ append-nil w.buffer

    ended :
        HasEnded
          (events (replicate n turns) w)
          (write_file w.file (concat (w.buffer ++ before_turn (replicate n turns))))
          (after_turn (replicate n turns))
    ended =
        events_stopped (replicate n turns) w (only_turns_lem n).0 r h
          (rw none_before (omega (arith, (only_turns_lem n).1, enough)))

    in_all : write_file w.file (concat (w.buffer ++ before_turn (replicate n turns))) ≡ all_bytes w
    in_all = rw (none_before, h) refl

-- Whatever is added and written, and however the thread's steps fall between these calls: where the thread sleeps when
-- `deinit` is called, and it gets two steps and one for each message that waits, it ends, and the file has
-- everything that was ever added, in order, behind what it had when it was opened.
pub json_complete :
    (open_file : Bytes → Option Bytes) (es : List JsonEvent) (n : ℕ)
    → let j = deinit (json_events es (init open_file new_json)) in
      let w = events (replicate n turns) j.writer in
      (json_events es (init open_file new_json)).writer.place ≡ sleeping
      → length j.writer.buffer + 2 ≤ n
      → (w.place ≡ idle) × (w.file ≡ write_file (open_file json_name) (concat (tags es)))
unfolding deinit stop_writer everything all_bytes waiting
json_complete open_file es n h enough =
    (ended.0, ended.1 ∙ all_bytes-flush_rest j.json j.writer ∙ given)
  where
    j : JsonWriter
    j = json_events es (init open_file new_json)

    stopped : Writer
    stopped = stop_writer (flush_rest j.json j.writer)

    given : everything j ≡ write_file (open_file json_name) (concat (tags es))
    given =
        everything-json_events es (init open_file new_json)
        ∙ ap (λ k. write_file k (concat (tags es))) (everything-init open_file)

    ended :
        ((events (replicate n turns) stopped).place ≡ idle)
        × ((events (replicate n turns) stopped).file ≡ all_bytes stopped)
    ended = events-turns n stopped refl (place-flush_rest j.json j.writer ∙ h) enough
