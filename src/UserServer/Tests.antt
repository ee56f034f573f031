-- ===== src/UserServer/Tests.antt =====
-- Runs of the console, and its theorem at four lines.
use recd.Common.{ℕ, ◌≡◌, refl, true, false, none, some, List, [], ◌∷◌, map}
use mathlib.Core.Option
use recd.UserServer.{
  help_answer, bye_answer, unknown_answer, answer, is_bye, starts_with, contains, Socket,
  new_server, serve, h_connection, incoming_connection, disconnected, comes_in, gets, is_closed,
  net_event, net_events,
}
use recd.UserServer.Answers.{up_to_quit, any_quit, answers-serve}

abbrev socket : Socket
socket = record { lines = []; answers = []; is_connected = true; is_up = true; is_alive = true }

-- "help\n", "quit\n" and "x\n"
abbrev help_line : List ℕ
help_line = 104 ∷ 101 ∷ 108 ∷ 112 ∷ 10 ∷ []

abbrev quit_line : List ℕ
quit_line = 113 ∷ 117 ∷ 105 ∷ 116 ∷ 10 ∷ []

abbrev other_line : List ℕ
other_line = 120 ∷ 10 ∷ []

answers-serve_applied :
    let k = serve (help_line ∷ other_line ∷ quit_line ∷ help_line ∷ []) socket in
    (k.answers ≡ help_answer ∷ unknown_answer ∷ bye_answer ∷ [])
    × (help_line ∷ other_line ∷ quit_line ∷ help_line ∷ []
        ≡ help_line ∷ other_line ∷ quit_line ∷ k.lines)
    × (k.is_up ≡ false)
unfolding up_to_quit any_quit answer is_bye contains starts_with
answers-serve_applied = answers-serve (help_line ∷ other_line ∷ quit_line ∷ help_line ∷ []) socket

-- With two clients the first one's line is not answered, and the end of its connection deletes the second one's socket.
two_clients_run :
    Option.map
      (λ s. map (λ k. k.answers) s.sockets)
      (net_events (comes_in true ∷ comes_in true ∷ gets 0 (help_line ∷ []) ∷ []) new_server)
    ≡ some ([] ∷ [] ∷ [])
unfolding net_events net_event h_connection incoming_connection serve
two_clients_run = refl

deleted_run :
    net_events
      (comes_in true ∷ comes_in true ∷ is_closed 0 ∷ gets 1 (help_line ∷ []) ∷ [])
      new_server
    ≡ none
unfolding net_events net_event h_connection incoming_connection disconnected serve
deleted_run = refl

one_client_run :
    Option.map
      (λ s. map (λ k. k.answers) s.sockets)
      (net_events
        (comes_in true ∷ gets 0 (help_line ∷ []) ∷ gets 0 (other_line ∷ []) ∷ [])
        new_server)
    ≡ some ((help_answer ∷ unknown_answer ∷ []) ∷ [])
unfolding net_events net_event h_connection incoming_connection serve answer is_bye contains
    starts_with
one_client_run = refl
