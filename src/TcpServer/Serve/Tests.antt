-- ===== src/TcpServer/Serve/Tests.antt =====
-- The theorem about the worker, at two silent clients and one that sends two bytes.
use recd.Common.{ℕ, ◌≡◌, ◌++◌, true, false, none, [], ◌∷◌, replicate}
use recd.TcpServer.{got, TcpServer, take_frames}
use recd.TcpServer.Serve.{stopped, accept_fails, times_out, readable, returned, reading, worker}
use recd.TcpServer.Serve.Ends.{worker_lem}

worker_lem_example :
    (worker true true (replicate 2 times_out ++ (stopped ∷ []))
      ≡ (record { listening = false; connections = 2; writer_running = false }, returned))
    × (worker true true (replicate 2 times_out ++ (accept_fails ∷ []))
        ≡ (record { listening = true; connections = 2; writer_running = true }, returned))
    × (worker true true (replicate 2 times_out ++ (readable (got (7 ∷ 8 ∷ []) ∷ []) ∷ [])) ≡ (
      record { listening = true; connections = 3; writer_running = true },
      reading (got (7 ∷ 8 ∷ []) ∷ []),
    ))
    × (n : ℕ) × ((s : TcpServer) → take_frames n (got (7 ∷ 8 ∷ []) ∷ []) s ≡ none)
worker_lem_example = worker_lem 2 [] (got (7 ∷ 8 ∷ []) ∷ [])
