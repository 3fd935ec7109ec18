-- ===== src/Server/Lifecycle/Cancels.antt =====
-- How often the server cancels each worker's socket.
use http_io.Common.{
  ℕ, suc, ◌-◌, ◌≡◌, sym, ap, subst, ◌∙◌, Bool, true, false, List, [], ◌∷◌, map, arith,
  if◌then◌else◌, Bool-cases, inl, inr,
}
use http_io.System.{ErrorCodes}
use http_io.Parser.{Parser}
use http_io.Serializer.{Serializer}
use http_io.Server.Request.{Libraries}
use http_io.Server.Worker.{Messages, Setup, WorkerEvent, Worker, run_worker, stop_worker}
use http_io.Server.Worker.Calls.{
  cancels, cancels-cancel, cancels-stop_worker, cancels-run_worker, cancels-on_event,
}
use http_io.Server.Lifecycle.{
  ServerEvent, signal, timer, worker_event, Acceptor, Server, make_server, run_acceptor,
  stop_acceptor, run_server, stop, on_signal, on_timer, update_worker, update_acceptor, loop_turn,
  loop,
}

module _ {E : ErrorCodes} (P : Parser E) (S : Serializer E) where
  -- Each worker's socket, and each acceptor's, was cancelled `n` times.
  abbrev pub EachWorker : ℕ → List (Worker P S) → Type 0
  EachWorker n [] = Unit
  EachWorker n (w ∷ ws) = (cancels w.calls ≡ n) × EachWorker n ws

  abbrev pub EachCancelled : ℕ → List (Acceptor P S) → Type 0
  EachCancelled n [] = Unit
  EachCancelled n (a ∷ v) = (EachWorker n a.workers × (cancels a.calls ≡ n)) × EachCancelled n v

  workers-run :
      (n : ℕ) (ws : List (Worker P S)) → EachWorker n ws → EachWorker n (map (run_worker P S) ws)
  workers-run n [] h = tt
  workers-run n (w ∷ ws) h = (cancels-run_worker P S w ∙ h.0, workers-run n ws h.1)

  acceptors-run :
      (n : ℕ) (v : List (Acceptor P S))
      → EachCancelled n v
      → EachCancelled n (map (run_acceptor P S) v)
  unfolding run_acceptor
  acceptors-run n [] h = tt
  acceptors-run n (a ∷ v) h = ((workers-run n a.workers h.0.0, h.0.1), acceptors-run n v h.1)

  workers-stop :
      (n : ℕ) (ws : List (Worker P S))
      → EachWorker n ws
      → EachWorker (suc n) (map (stop_worker P S) ws)
  workers-stop n [] h = tt
  workers-stop n (w ∷ ws) h = (cancels-stop_worker P S w ∙ ap suc h.0, workers-stop n ws h.1)

  acceptors-stop :
      (n : ℕ) (v : List (Acceptor P S))
      → EachCancelled n v
      → EachCancelled (suc n) (map (stop_acceptor P S) v)
  unfolding stop_acceptor
  acceptors-stop n [] h = tt
  acceptors-stop n (a ∷ v) h = (
    (workers-stop n a.workers h.0.0, cancels-cancel a.calls ∙ ap suc h.0.1),
    acceptors-stop n v h.1,
  )

  abbrev pub times : Bool → ℕ
  times is_stopped = if is_stopped then 1 else 0

  abbrev IsCounted : Server P S → Type 0
  IsCounted s = EachCancelled (times s.is_stopped) s.v_

  pub stop-stopped : (s : Server P S) → s.is_stopped ≡ true → stop P S s ≡ s
  unfolding stop
  stop-stopped s h = ground arith

  pub stop-going :
      (s : Server P S)
      → s.is_stopped ≡ false
      → ((stop P S s).is_stopped ≡ true) × ((stop P S s).v_ ≡ map (stop_acceptor P S) s.v_)
  unfolding stop
  stop-going s h = ground arith

  stop-IsCounted : (s : Server P S) → IsCounted s → IsCounted (stop P S s)
  stop-IsCounted s h = elim (Bool-cases s.is_stopped) [
    | inl done ↦ subst IsCounted (sym (stop-stopped s done)) h
    | inr going ↦
        let (stopped, v) = stop-going s going in
        rw (stopped, v) (acceptors-stop 0 s.v_ (subst (λ b. EachCancelled (times b) s.v_) going h))
  ]

  module _ (lib : Libraries E) (msgs : Messages P S) (setup : Setup) where
    workers-update :
        (n : ℕ) (b : Bool) (i : ℕ) (e : WorkerEvent E.Code) (ws : List (Worker P S))
        → EachWorker n ws
        → EachWorker n (update_worker P S lib msgs setup b i e ws)
    unfolding update_worker
    workers-update n b i e [] h = tt
    workers-update n b ℕ.zero e (w ∷ ws) h = (cancels-on_event P S lib msgs setup b e w ∙ h.0, h.1)
    workers-update n b (suc i) e (w ∷ ws) h = (h.0, workers-update n b i e ws h.1)

    acceptors-update :
        (n : ℕ) (b : Bool) (i : ℕ) (e : WorkerEvent E.Code) (v : List (Acceptor P S))
        → EachCancelled n v
        → EachCancelled n (map (update_acceptor P S lib msgs setup b i e) v)
    unfolding update_acceptor
    acceptors-update n b i e [] h = tt
    acceptors-update n b i e (a ∷ v) h =
        ((workers-update n b i e a.workers h.0.0, h.0.1), acceptors-update n b i e v h.1)

    loop_turn-IsCounted :
        (e : ServerEvent E.Code) (s : Server P S)
        → IsCounted s
        → IsCounted (loop_turn P S lib msgs setup e s)
    unfolding loop_turn on_signal on_timer
    loop_turn-IsCounted (signal ec) s h =
        ground (arith, stop-IsCounted (record s { signal_waits = s.signal_waits - 1 }) h)
    loop_turn-IsCounted (timer ec) s h =
        ground (arith, stop-IsCounted (record s { timer_waits = s.timer_waits - 1 }) h)
    loop_turn-IsCounted (worker_event i e) s h = acceptors-update _ s.is_shutting_down i e s.v_ h

    loop-IsCounted :
        (s : Server P S) (es : List (ServerEvent E.Code))
        → IsCounted s
        → IsCounted (loop P S lib msgs setup s es)
    unfolding loop
    loop-IsCounted s [] h = h
    loop-IsCounted s (e ∷ es) h =
        loop-IsCounted (loop_turn P S lib msgs setup e s) es (loop_turn-IsCounted e s h)

    -- Whatever completions come, a server started with services none of whose sockets was cancelled
    -- has cancelled the listening socket and the socket of every worker exactly once if it is
    -- stopped, and never before.
    pub run_server-EachCancelled :
        (services : List (Acceptor P S)) (es : List (ServerEvent E.Code))
        → EachCancelled 0 services
        → let s = loop P S lib msgs setup (run_server P S (make_server P S services)) es in
          EachCancelled (times s.is_stopped) s.v_
    unfolding run_server make_server
    run_server-EachCancelled services es h = loop-IsCounted _ es (acceptors-run 0 services h)
