-- ===== src/Server/Lifecycle/Rest.antt =====
-- How a stopped server comes to rest: what the event loop still waits for, and that the completions
-- of what was cancelled leave less of it.
use http_io.Common.{ℕ, suc, ◌+◌, ◌<◌, ◌≡◌, refl, Bool, true, List, [], ◌∷◌, arith, length}
use http_io.System.{ErrorCodes}
use http_io.Parser.{Parser}
use http_io.Serializer.{Serializer}
use http_io.Read
use http_io.Write
use http_io.Server.Request.{Libraries}
use http_io.Server.Worker.{
  Messages, Setup, WorkerEvent, accepted, read_event, write_event, Pending, idle, accepting,
  reading_header, reading_body, writing, threw, undefined, Worker,
}
use http_io.Server.Worker.Drain.{IsCancelled, on_event-idle}
use http_io.Server.Lifecycle.{
  ServerEvent, signal, timer, worker_event, Acceptor, Server, make_server, run_server, on_signal,
  on_timer, stop, update_worker, loop_turn, loop,
}
use http_io.Server.Lifecycle.Laws.{IsOrderly, run_server-IsOrderly}

module _ {E : ErrorCodes} (P : Parser E) (S : Serializer E) where
  -- The operations that a worker waits for: one or none.
  abbrev waits : Pending P S → ℕ
  waits accepting = 1
  waits (reading_header t) = 1
  waits (reading_body t) = 1
  waits (writing s) = 1
  waits idle = 0
  waits threw = 0
  waits undefined = 0

  abbrev all_wait : List (Worker P S) → ℕ
  all_wait [] = 0
  all_wait (w ∷ ws) = waits w.pending + all_wait ws

  abbrev services_wait : List (Acceptor P S) → ℕ
  services_wait [] = 0
  services_wait (a ∷ as_) = all_wait a.workers + services_wait as_

  -- What `ioc_.run()` waits for; it returns when this is nothing.
  abbrev pub outstanding : Server P S → ℕ
  outstanding s = s.signal_waits + s.timer_waits + services_wait s.v_

  -- The event is the completion, with operation_aborted, of what the worker with an index waits for.
  abbrev CancelledAt : ℕ → WorkerEvent E.Code → List (Worker P S) → Type 0
  CancelledAt i e [] = ⊥
  CancelledAt ℕ.zero e (w ∷ ws) = IsCancelled P S w.pending e
  CancelledAt (suc i) e (w ∷ ws) = CancelledAt i e ws

  -- The event is the completion, with operation_aborted, of something that the server waits for.
  abbrev pub IsAborted : Server P S → ServerEvent E.Code → Type 0
  IsAborted s (signal c) = (E.is_aborted c ≡ true) × (0 < s.signal_waits)
  IsAborted s (timer c) = (E.is_aborted c ≡ true) × (0 < s.timer_waits)
  IsAborted s (worker_event i e) = (a : Acceptor P S) × (s.v_ ≡ a ∷ []) × CancelledAt i e a.workers

  IsCancelled-waits : (p : Pending P S) (e : WorkerEvent E.Code) → IsCancelled P S p e → waits p ≡ 1
  IsCancelled-waits accepting (accepted c) h = refl
  IsCancelled-waits (reading_header t) (read_event (Read.Event.arrival c bytes)) h = refl
  IsCancelled-waits (reading_body t) (read_event (Read.Event.arrival c bytes)) h = refl
  IsCancelled-waits (writing s) (write_event (Write.Event.written c k)) h = refl
  IsCancelled-waits p e h = absurd h

  module _ (lib : Libraries E) (msgs : Messages P S) (setup : Setup) where
    abbrev pub AllAborted : Server P S → List (ServerEvent E.Code) → Type 0
    AllAborted s [] = Unit
    AllAborted s (e ∷ es) = IsAborted s e × AllAborted (loop_turn P S lib msgs setup e s) es

    update_worker-waits :
        (b : Bool) (i : ℕ) (e : WorkerEvent E.Code) (ws : List (Worker P S))
        → CancelledAt i e ws
        → suc (all_wait (update_worker P S lib msgs setup b i e ws)) ≡ all_wait ws
    unfolding update_worker
    update_worker-waits b i e [] h = absurd h
    update_worker-waits b ℕ.zero e (w ∷ ws) h =
        rw (on_event-idle P S lib msgs setup b e w h, IsCancelled-waits w.pending e h) (omega arith)
    update_worker-waits b (suc i) e (w ∷ ws) h = omega (arith, update_worker-waits b i e ws h)

    loop_turn-rests :
        (e : ServerEvent E.Code) (s : Server P S)
        → s.is_shutting_down ≡ true
        → s.is_stopped ≡ true
        → IsAborted s e
        → let s' = loop_turn P S lib msgs setup e s in
          (suc (outstanding s') ≡ outstanding s)
          × (s'.is_shutting_down ≡ true)
          × (s'.is_stopped ≡ true)
    unfolding loop_turn on_signal on_timer stop
    loop_turn-rests (signal c) s down stopped (ab, some_wait) = ground arith
    loop_turn-rests (timer c) s down stopped (ab, some_wait) =
        ground (arith, E.failed_of_aborted c ab)
    loop_turn-rests (worker_event i e) s down stopped (a, one, at) = (
      rw one (omega (arith, update_worker-waits s.is_shutting_down i e a.workers at)),
      down,
      stopped,
    )

    loop-rests :
        (s : Server P S) (ds : List (ServerEvent E.Code))
        → s.is_shutting_down ≡ true
        → s.is_stopped ≡ true
        → AllAborted s ds
        → outstanding (loop P S lib msgs setup s ds) + length ds ≡ outstanding s
    unfolding loop
    loop-rests s [] down stopped h = omega arith
    loop-rests s (d ∷ ds) down stopped (ab, more) =
        let (fewer, down', stopped') = loop_turn-rests d s down stopped ab in
        omega (arith, loop-rests (loop_turn P S lib msgs setup d s) ds down' stopped' more)

    stopped-is_shutting_down :
        (s : Server P S) → IsOrderly P S s → s.is_stopped ≡ true → s.is_shutting_down ≡ true
    stopped-is_shutting_down s o h = ground arith

    -- A started server that is stopped starts nothing for the completions of what it cancelled: each
    -- completion, with operation_aborted, of a wait for a signal, of the timer, or of the accept, read
    -- or write of a worker, in any order, leaves one operation less to wait for, until `ioc_.run()`
    -- has none.
    pub run_server-rests :
        (services : List (Acceptor P S)) (es ds : List (ServerEvent E.Code))
        → let s = loop P S lib msgs setup (run_server P S (make_server P S services)) es in
          s.is_stopped ≡ true
          → AllAborted s ds
          → outstanding (loop P S lib msgs setup s ds) + length ds ≡ outstanding s
    run_server-rests services es ds stopped h =
        let s = loop P S lib msgs setup (run_server P S (make_server P S services)) es in
        loop-rests s ds
          (stopped-is_shutting_down s (run_server-IsOrderly P S lib msgs setup services es) stopped)
          stopped h
