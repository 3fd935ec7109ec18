-- ===== src/Server/Lifecycle/Workers.antt =====
-- What holds for every worker of a started server, because its handlers keep it.
use http_io.Common.{ℕ, suc, ◌-◌, Bool, List, [], ◌∷◌, map, arith}
use http_io.System.{ErrorCodes}
use http_io.Parser.{Parser, IsLawful}
use http_io.Serializer.{Serializer}
use http_io.Server.Request.{Libraries}
use http_io.Server.Worker.{Messages, Setup, WorkerEvent, Worker, run_worker, stop_worker, on_event}
use http_io.Server.Worker.Laws.{IsSafe, on_event-IsSafe, run_worker-IsSafe, stop_worker-IsSafe}
use http_io.Server.Lifecycle.{
  ServerEvent, signal, timer, worker_event, Acceptor, Server, make_server, run_acceptor,
  stop_acceptor, run_server, stop, on_signal, on_timer, update_worker, update_acceptor, loop_turn,
  loop,
}

module _ {E : ErrorCodes} (P : Parser E) (S : Serializer E) where
  abbrev pub All : (Worker P S → Type 0) → List (Worker P S) → Type 0
  All Q [] = Unit
  All Q (x ∷ xs) = Q x × All Q xs

  -- A predicate holds for every worker of every service.
  abbrev pub EachWorker : (Worker P S → Type 0) → List (Acceptor P S) → Type 0
  EachWorker Q [] = Unit
  EachWorker Q (a ∷ v) = All Q a.workers × EachWorker Q v

  module _ (Q : Worker P S → Type 0) where
    workers-run :
        ((w : Worker P S) → Q (run_worker P S w))
        → (ws : List (Worker P S)) → All Q (map (run_worker P S) ws)
    workers-run q [] = tt
    workers-run q (w ∷ ws) = (q w, workers-run q ws)

    each-run :
        ((w : Worker P S) → Q (run_worker P S w))
        → (v : List (Acceptor P S)) → EachWorker Q (map (run_acceptor P S) v)
    unfolding run_acceptor
    each-run q [] = tt
    each-run q (a ∷ v) = (workers-run q a.workers, each-run q v)

    module _ (q_stop : (w : Worker P S) → Q w → Q (stop_worker P S w)) where
      workers-stop : (ws : List (Worker P S)) → All Q ws → All Q (map (stop_worker P S) ws)
      workers-stop [] h = tt
      workers-stop (w ∷ ws) h = (q_stop w h.0, workers-stop ws h.1)

      each-stop :
          (v : List (Acceptor P S)) → EachWorker Q v → EachWorker Q (map (stop_acceptor P S) v)
      unfolding stop_acceptor
      each-stop [] h = tt
      each-stop (a ∷ v) h = (workers-stop a.workers h.0, each-stop v h.1)

      stop-each : (s : Server P S) → EachWorker Q s.v_ → EachWorker Q (stop P S s).v_
      unfolding stop
      stop-each s h = ground (arith, each-stop s.v_ h, h)

      module _ (lib : Libraries E) (msgs : Messages P S) (setup : Setup)
          (q_event : (b : Bool) (e : WorkerEvent E.Code) (w : Worker P S)
            → Q w
            → Q (on_event P S lib msgs setup b e w)) where
        workers-update :
            (b : Bool) (i : ℕ) (e : WorkerEvent E.Code) (ws : List (Worker P S))
            → All Q ws
            → All Q (update_worker P S lib msgs setup b i e ws)
        unfolding update_worker
        workers-update b i e [] h = tt
        workers-update b ℕ.zero e (w ∷ ws) h = (q_event b e w h.0, h.1)
        workers-update b (suc i) e (w ∷ ws) h = (h.0, workers-update b i e ws h.1)

        each-update :
            (b : Bool) (i : ℕ) (e : WorkerEvent E.Code) (v : List (Acceptor P S))
            → EachWorker Q v
            → EachWorker Q (map (update_acceptor P S lib msgs setup b i e) v)
        unfolding update_acceptor
        each-update b i e [] h = tt
        each-update b i e (a ∷ v) h = (workers-update b i e a.workers h.0, each-update b i e v h.1)

        loop_turn-each :
            (e : ServerEvent E.Code) (s : Server P S)
            → EachWorker Q s.v_
            → EachWorker Q (loop_turn P S lib msgs setup e s).v_
        unfolding loop_turn on_signal on_timer
        loop_turn-each (signal ec) s h =
            ground (arith, stop-each (record s { signal_waits = s.signal_waits - 1 }) h, h)
        loop_turn-each (timer ec) s h =
            ground (arith, stop-each (record s { timer_waits = s.timer_waits - 1 }) h, h)
        loop_turn-each (worker_event i e) s h = each-update s.is_shutting_down i e s.v_ h

        loop-each :
            (s : Server P S) (es : List (ServerEvent E.Code))
            → EachWorker Q s.v_
            → EachWorker Q (loop P S lib msgs setup s es).v_
        unfolding loop
        loop-each s [] h = h
        loop-each s (e ∷ es) h =
            loop-each (loop_turn P S lib msgs setup e s) es (loop_turn-each e s h)

  module _ (lib : Libraries E) (msgs : Messages P S) (setup : Setup) (L : IsLawful E P) where
    -- With a lawful parser, whatever completions come, and with any services, no worker of a started
    -- server has a handler that is left by the std::logic_error of `async_read`, and each that waits
    -- for a header waits for an operation that succeeds only with one.
    pub run_server-EachSafe :
        (services : List (Acceptor P S)) (es : List (ServerEvent E.Code))
        → EachWorker
            (IsSafe P S L)
            (loop P S lib msgs setup (run_server P S (make_server P S services)) es).v_
    unfolding run_server make_server
    run_server-EachSafe services es =
        loop-each (IsSafe P S L) (stop_worker-IsSafe P S L) lib msgs setup
          (on_event-IsSafe P S L lib msgs setup) _ es
          (each-run (IsSafe P S L) (run_worker-IsSafe P S L) services)
