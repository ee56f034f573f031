-- ===== src/Writer/Tests.antt =====
-- Runs of the writer, the JSON writer and the logger, and their theorems at small inputs.
use Prim.Native.String.{String}
use recd.Common.{ℕ, ◌≡◌, refl, arith, true, false, Option, none, some, List, [], ◌∷◌, replicate}
use recd.Config.{MPair}
use recd.Writer.{
  Bytes, Writer, sleeping, flushing, new_writer, setup, write, started, start_writer, stop_writer,
  drain, write_file, turn_at, turn, Event, writes, stops, turns, event, events,
}
use recd.Writer.Files.{concat, taken, waiting, written, all_bytes, all_bytes-events}
use recd.Writer.Stop.{
  HasEnded, no_starts, turn_count, before_turn, after_turn, events_stopped, events-flushing,
}
use recd.Writer.Json.{
  JsonEvent, adds, writes_json, takes_turn, new_json, init, json_events, json_event, add,
  write_json, flush_rest, deinit, tags, json_complete,
}
use recd.Writer.Logger.{
  log_speed, log_folder, log_name, time_part, name_part, checked, log_name_lem,
}

-- A file system in which every file opens, and has one byte.
abbrev opens : Bytes → Option Bytes
opens fname = some (9 ∷ [])

abbrev running : Writer
running = record {
  target = 1 ∷ [];
  file = some (9 ∷ []);
  speed = 1;
  buffer = (5 ∷ []) ∷ [];
  is_running = true;
  place = sleeping;
}

abbrev stopped_asleep : Writer
stopped_asleep = record running { is_running = false }

abbrev stopped_late : Writer
stopped_late = record running { is_running = false; place = flushing ((4 ∷ []) ∷ []) }

abbrev mixed : List Event
mixed = turns ∷ writes (6 ∷ 7 ∷ []) ∷ turns ∷ stops ∷ turns ∷ turns ∷ []

setup_run : (setup opens (1 ∷ []) 5 new_writer).1.file ≡ some (9 ∷ [])
unfolding setup
setup_run = refl

-- The message that comes after the thread has taken the queue is not in the file when the thread ends.
mixed_run :
    ((events mixed running).file ≡ some (9 ∷ 5 ∷ []))
    × ((events mixed running).buffer ≡ (6 ∷ 7 ∷ []) ∷ [])
unfolding events event turn turn_at drain write stop_writer write_file
mixed_run = (refl, refl)

all_bytes-events_example : all_bytes (events mixed running) ≡ some (9 ∷ 5 ∷ 6 ∷ 7 ∷ [])
unfolding all_bytes waiting taken written concat write_file
all_bytes-events_example = all_bytes-events mixed running

abbrev late : List Event
late = writes (8 ∷ []) ∷ turns ∷ writes (6 ∷ []) ∷ turns ∷ turns ∷ turns ∷ []

events_stopped_example :
    HasEnded (events late stopped_asleep) (some (9 ∷ 5 ∷ 8 ∷ [])) ((6 ∷ []) ∷ [])
unfolding no_starts turn_count before_turn after_turn write_file concat written
events_stopped_example = events_stopped late stopped_asleep refl refl refl (omega arith)

events-flushing_example :
    HasEnded (events late stopped_late) (some (9 ∷ 4 ∷ [])) ((5 ∷ []) ∷ (8 ∷ []) ∷ (6 ∷ []) ∷ [])
unfolding no_starts turn_count write_file concat written
events-flushing_example =
    events-flushing late stopped_late ((4 ∷ []) ∷ []) refl refl refl (omega arith)

abbrev session : List JsonEvent
session =
    adds (1 ∷ [])
    ∷ adds (2 ∷ [])
    ∷ writes_json
    ∷ takes_turn
    ∷ takes_turn
    ∷ takes_turn
    ∷ adds (3 ∷ [])
    ∷ []

json_complete_example :
    (events (replicate 3 turns) (deinit (json_events session (init opens new_json))).writer).file
    ≡ some (9 ∷ 1 ∷ 2 ∷ 3 ∷ [])
unfolding deinit json_events json_event init add write_json write setup start_writer started turn
    turn_at drain flush_rest stop_writer write_file tags concat
json_complete_example = (json_complete opens session 3 refl (omega arith)).1

-- Where the thread is writing when `deinit` is called, the last part is lost.
json_lost_run :
    (events
      (replicate 9 turns)
      (deinit (
        json_events
          (adds (1 ∷ []) ∷ writes_json ∷ takes_turn ∷ adds (3 ∷ []) ∷ [])
          (init opens new_json))).writer).file
    ≡ some (9 ∷ 1 ∷ [])
unfolding deinit json_events json_event init add write_json write setup start_writer started turn
    turn_at drain flush_rest stop_writer write_file events event
json_lost_run = refl

abbrev pair : String → String → MPair
pair a b = record { type1 = a; type2 = b }

abbrev as_bytes : String → Bytes
as_bytes s = 65 ∷ 66 ∷ []

abbrev as_number : String → Option ℕ
as_number s = none

log_name_lem_applied :
    log_name as_bytes (48 ∷ []) (pair "logs" "d") (pair "name" "n") (pair "timestamp" "true")
    ≡ some (65 ∷ 66 ∷ 47 ∷ 48 ∷ 45 ∷ 65 ∷ 66 ∷ [])
unfolding checked log_folder time_part name_part
log_name_lem_applied =
    log_name_lem as_bytes (48 ∷ []) (pair "logs" "d") (pair "name" "n") (pair "timestamp" "true")

-- A speed that is not given is 0, one that is no number 1000.
log_speed_run :
    (log_speed as_number (pair "" "") ≡ 0) × (log_speed as_number (pair "speed" "x") ≡ 1000)
unfolding log_speed
log_speed_run = (refl, refl)
