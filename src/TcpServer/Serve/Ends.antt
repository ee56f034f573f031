-- ===== src/TcpServer/Serve/Ends.antt =====
-- How the worker of udp-streamer/tcp-server.cpp ends, and where it does not.
use recd.Common.{
  ℕ, zero, suc, ◌+◌, ◌-◌, ◌≡◌, ◌<◌, refl, sym, ap, ◌∙◌, true, false, Option, none, some, List, [],
  ◌∷◌, ◌++◌, ◌==◌, leb, ltb, length, replicate, length-drop, if◌then◌else◌, if-true, if-false,
  Bool-cases, Option-cases, inl, inr, some-eq, arith, ◌>>=◌,
}
use recd.TcpServer.Segments.{fill_full, fill_last, fill_more}
use recd.TcpServer.{
  Arrival, got, hangs_up, fails, fill, put_bytes, frame_size, frame_of, TcpServer, take_frame,
  take_frames,
}
use recd.TcpServer.Serve.{
  Next, stopped, accept_fails, times_out, readable, Worker, returned, reading, accepted, serve,
  worker,
}

-- What a stream still has, one for each arrival and each byte.
abbrev weight : List Arrival → ℕ
weight [] = 0
weight (got bs ∷ rest) = length bs + 1 + weight rest
weight (hangs_up ∷ rest) = 1 + weight rest
weight (fails ∷ rest) = 1 + weight rest

fill-waits : (SIZE : ℕ) (len : ℕ) (b : List ℕ) → len < SIZE → fill SIZE [] len b ≡ none
unfolding fill
fill-waits SIZE len b h = if-false {b = leb SIZE len} _ _ (ground arith)

fill-hangs_up :
    (SIZE : ℕ) (rest : List Arrival) (len : ℕ) (b : List ℕ)
    → len < SIZE
    → fill SIZE (hangs_up ∷ rest) len b ≡ none
unfolding fill
fill-hangs_up SIZE rest len b h = if-false {b = leb SIZE len} _ _ (ground arith)

fill-fails :
    (SIZE : ℕ) (rest : List Arrival) (len : ℕ) (b : List ℕ)
    → len < SIZE
    → fill SIZE (fails ∷ rest) len b
      ≡ (if len == 0 then some (b, rest) else fill SIZE rest (len - 1) b)
unfolding fill
fill-fails SIZE rest len b h = if-false {b = leb SIZE len} _ _ (ground arith)

not_none : {A : Type 0} {o : Option A} (x : A) → o ≡ none → o ≡ some x → ⊥
not_none x e f = cc

taken :
    {b : List ℕ} {arrivals : List Arrival} (r : List ℕ × List Arrival)
    → some (b, arrivals) ≡ some r
    → weight r.1 ≡ weight arrivals
taken r e = ap (λ (q : List ℕ × List Arrival). weight q.1) (sym (some-eq e))

-- Where the loop around `read` ends, the stream has less afterwards.
fill_takes :
    (SIZE : ℕ) (arrivals : List Arrival) (len : ℕ) (b : List ℕ) (r : List ℕ × List Arrival)
    → len < SIZE
    → fill SIZE arrivals len b ≡ some r
    → weight r.1 < weight arrivals
fill_takes SIZE [] len b r h e = absurd (not_none r (fill-waits SIZE len b h) e)
fill_takes SIZE (hangs_up ∷ rest) len b r h e =
    absurd (not_none r (fill-hangs_up SIZE rest len b h) e)
fill_takes SIZE (fails ∷ rest) len b r h e = elim (Bool-cases (len == 0)) [
  | inl zero_len ↦
      omega (arith, taken r (sym (fill-fails SIZE rest len b h ∙ if-true _ _ zero_len) ∙ e))
  | inr more ↦
      let ih =
        fill_takes SIZE rest (len - 1) b r (omega arith)
          (sym (fill-fails SIZE rest len b h ∙ if-false _ _ more) ∙ e) in
      omega arith
]
fill_takes SIZE (got bs ∷ rest) len b r h e = elim (Bool-cases (ltb (SIZE - len) (length bs))) [
  | inl over ↦ omega (
    arith,
    taken r (sym (fill_last SIZE bs rest len b h (ground arith)) ∙ e),
    length-drop (SIZE - len) bs,
    long over,
  )
  | inr fits ↦ elim (Bool-cases (ltb (len + length bs) SIZE)) [
    | inl less ↦
        let ih =
          fill_takes SIZE rest (len + length bs) (put_bytes b len bs) r (ground arith)
            (sym (fill_more SIZE bs rest len b h (ground arith)) ∙ e) in
        omega arith
    | inr full ↦ omega (
      arith,
      taken r (
          sym (
            fill_more SIZE bs rest len b h (ground arith)
            ∙ fill_full SIZE rest (len + length bs) (put_bytes b len bs) (ground arith))
          ∙ e),
    )
  ]
]
  where
    long : ltb (SIZE - len) (length bs) ≡ true → SIZE - len < length bs
    long over = ground arith

-- The rounds behind the first one.
rounds-none :
    (o : Option TcpServer) (f : TcpServer → Option (TcpServer × List Arrival))
    → ((s : TcpServer) → f s ≡ none)
    → (o >>= f) ≡ none
rounds-none none f h = refl
rounds-none (some s) f h = h s

-- A connection is never left: with whatever bytes, errors or end the stream goes on, the loop over its frames does not come
-- to more rounds than the stream has arrivals and bytes, and then waits or reads 0 bytes for ever.
pub connection_never_ends :
    (n : ℕ) (arrivals : List Arrival) (s : TcpServer)
    → weight arrivals < n
    → take_frames n arrivals s ≡ none
unfolding take_frames
connection_never_ends zero arrivals s h = absurd (omega (arith, h))
connection_never_ends (suc n) arrivals s h =
    elim (Option-cases (fill frame_size arrivals 0 (replicate frame_size 0))) [
      | inl ends ↦ rw ends refl
      | inr ((b, rest), e) ↦
          let less =
            fill_takes frame_size arrivals 0 (replicate frame_size 0) (b, rest) (omega arith) e in
          rw e (
            rounds-none (take_frame (frame_of b) s) (λ s'. take_frames n rest s')
              (λ s'. connection_never_ends n rest s' (omega arith)))
    ]

serve_times_out :
    (k : ℕ) (es : List Next) (w : Worker)
    → serve (replicate k times_out ++ es) w
      ≡ serve es (record w { connections = w.connections + k })
unfolding serve
serve_times_out zero es w = ap (λ n. serve es (record w { connections = n })) (omega arith)
serve_times_out (suc k) es w =
    serve_times_out k es (accepted w)
    ∙ ap (λ n. serve es (record w { connections = n })) (omega arith)

-- Clients that connect and send nothing: each of `k` such connections stays open. The thread that is stopped then closes the
-- listening socket and none of these; a failure of `accept` ends it with the socket open and the writer running; and with
-- one connection that can be read it never comes back, so that it cannot be stopped at all.
pub worker_lem :
    (k : ℕ) (es : List Next) (arrivals : List Arrival)
    → (worker true true (replicate k times_out ++ (stopped ∷ es))
        ≡ (record { listening = false; connections = k; writer_running = false }, returned))
      × (worker true true (replicate k times_out ++ (accept_fails ∷ es))
          ≡ (record { listening = true; connections = k; writer_running = true }, returned))
      × (worker true true (replicate k times_out ++ (readable arrivals ∷ es)) ≡ (
        record { listening = true; connections = k + 1; writer_running = true },
        reading arrivals,
      ))
      × (n : ℕ) × ((s : TcpServer) → take_frames n arrivals s ≡ none)
unfolding worker serve
worker_lem k es arrivals = (
  serve_times_out k (stopped ∷ es) listening
      ∙ ap (λ n. (record { listening = false; connections = n; writer_running = false }, returned))
          (omega arith),
  serve_times_out k (accept_fails ∷ es) listening
      ∙ ap (λ n. (record { listening = true; connections = n; writer_running = true }, returned))
          (omega arith),
  serve_times_out k (readable arrivals ∷ es) listening
      ∙ ap
          (λ n.
            (record { listening = true; connections = n; writer_running = true }, reading arrivals))
          (omega arith),
  weight arrivals + 1,
  λ s. connection_never_ends (weight arrivals + 1) arrivals s (omega arith),
)
  where
    listening : Worker
    listening = record { listening = true; connections = 0; writer_running = true }
