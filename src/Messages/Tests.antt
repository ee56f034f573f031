-- ===== src/Messages/Tests.antt =====
-- Runs of the message server, and its theorem at two messages.
use recd.Common.{◌≡◌, refl, true, false, arith, map, some, List, [], ◌∷◌, replicate}
use recd.Writer.{sleeping, new_writer, write, write_file, turns, events}
use recd.Writer.Files.{concat, taken, waiting, all_bytes}
use recd.Writer.Logger.{Logger, log_message, deinit}
use recd.Messages.{arrives, fails, read_count, on_message, ready_read, send_message, init}
use recd.Messages.Path.{Message, sent, messages_reach_file}

abbrev asleep : Logger
asleep = record {
  onetime = true;
  writer = record new_writer { file = some (9 ∷ []); is_running = true; place = sleeping };
}

-- A datagram that cannot be read is logged, as what the array has; an empty one is not.
failed_run :
    (ready_read (fails (0 ∷ 0 ∷ []) ∷ arrives [] ∷ arrives (5 ∷ []) ∷ []) asleep).writer.buffer
    ≡ (0 ∷ 0 ∷ []) ∷ (5 ∷ []) ∷ []
unfolding ready_read on_message read_count log_message write
failed_run = refl

init_run : (init (1 ∷ []) (2 ∷ []) (3 ∷ []) false asleep).writer.buffer ≡ (1 ∷ []) ∷ (2 ∷ []) ∷ []
unfolding init log_message write
init_run = refl

abbrev two_messages : List Message
two_messages = (65 ∷ [], 66 ∷ []) ∷ (67 ∷ [], 68 ∷ []) ∷ []

messages_reach_file_example :
    (events (replicate 4 turns) (deinit (ready_read (map sent two_messages) asleep)).writer).file
    ≡ some (9 ∷ 91 ∷ 65 ∷ 93 ∷ 58 ∷ 66 ∷ 91 ∷ 67 ∷ 93 ∷ 58 ∷ 68 ∷ [])
unfolding all_bytes waiting taken concat write_file send_message
messages_reach_file_example = (messages_reach_file two_messages asleep 4 refl (omega arith)).1
