-- ===== src/TcpServer/Serve.antt =====
-- udp-streamer/tcp-server.cpp: the rest of `TcpServer::worker`: the socket, `accept`, `select` and how the thread ends.
pub mod Ends
mod Tests
use recd.Common.{ℕ, ◌+◌, Bool, true, false, List, [], ◌∷◌, if◌then◌else◌}
use recd.TcpServer.{Arrival, TcpServer}

-- What the worker meets at the head of its loop: `m_isRunning` has been cleared, `accept` fails, or a connection whose
-- `select` fails, finds nothing in five seconds, or finds something to read.
pub data Next : Type 0 where
  stopped accept_fails select_fails times_out : Next
  readable : List Arrival → Next

-- The sockets that are open, and `m_isRunning` of the writer.
pub record Worker : Type 0 where
  pub listening : Bool
  pub connections : ℕ
  pub writer_running : Bool

-- Where the thread is: it has returned, it waits in `accept`, or it reads from a connection, in a loop that tests
-- nothing but the result of the one `select`.
pub data Place : Type 0 where
  returned accepting : Place
  reading : List Arrival → Place

abbrev pub idle : Worker
idle = record { listening = false; connections = 0; writer_running = false }

abbrev pub accepted : Worker → Worker
accepted w = record w { connections = w.connections + 1 }

-- The outer loop. A connection is closed behind the loop that reads from it, and nowhere else.
unfoldable pub serve : List Next → Worker → Worker × Place
serve [] w = (w, accepting)
serve (stopped ∷ es) w = (record w { listening = false; writer_running = false }, returned)
serve (accept_fails ∷ es) w = (w, returned)
serve (select_fails ∷ es) w = (accepted w, returned)
serve (times_out ∷ es) w = serve es (accepted w)
serve (readable arrivals ∷ es) w = (accepted w, reading arrivals)

-- `worker`: whether `socket` and `bind` succeed, and what the loop meets.
unfoldable pub worker : Bool → Bool → List Next → Worker × Place
worker socket_ok bind_ok es =
    if socket_ok
    then (if bind_ok
        then serve es (record { listening = true; connections = 0; writer_running = true })
        else (record idle { listening = true }, returned))
    else (idle, returned)
