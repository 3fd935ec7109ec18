-- ===== src/Server/Lifecycle/Stages.antt =====
-- The shutdown of the server as a machine of four stages, which its completions drive.
use http_io.Common.{◌≡◌, refl, true, false, List, [], ◌∷◌, arith, if◌then◌else◌}
use http_io.System.{ErrorCodes}
use http_io.Parser.{Parser}
use http_io.Serializer.{Serializer}
use http_io.Server.Request.{Libraries}
use http_io.Server.Worker.{Messages, Setup}
use http_io.Server.Lifecycle.{
  ServerEvent, signal, timer, worker_event, Acceptor, Server, make_server, run_server, stop,
  on_signal, on_timer, loop_turn, loop,
}

-- The server runs; it counts down the thirty seconds of its timer; it waits without a timer, after
-- its wait for the timer failed; it is halted.
pub data Stage : Type 0 where
  running counting_down waiting halted : Stage

module _ (E : ErrorCodes) where
  abbrev pub next : ServerEvent E.Code → Stage → Stage
  next (signal c) running = counting_down
  next (signal c) counting_down = halted
  next (signal c) waiting = halted
  next (timer c) counting_down = if E.failed c then waiting else halted
  next e st = st

  abbrev pub stages : Stage → List (ServerEvent E.Code) → Stage
  stages st [] = st
  stages st (e ∷ es) = stages (next e st) es

module _ {E : ErrorCodes} (P : Parser E) (S : Serializer E) where
  -- The members of a server that is at a stage.
  abbrev pub IsAt : Stage → Server P S → Type 0
  IsAt running s =
      (s.is_shutting_down ≡ false)
      × (s.is_stopped ≡ false)
      × (s.signal_waits ≡ 1)
      × (s.timer_waits ≡ 0)
      × (s.expirations ≡ [])
      × (s.cancellations ≡ 0)
  IsAt counting_down s =
      (s.is_shutting_down ≡ true)
      × (s.is_stopped ≡ false)
      × (s.signal_waits ≡ 1)
      × (s.timer_waits ≡ 1)
      × (s.expirations ≡ 30 ∷ [])
      × (s.cancellations ≡ 0)
  IsAt waiting s =
      (s.is_shutting_down ≡ true)
      × (s.is_stopped ≡ false)
      × (s.signal_waits ≡ 1)
      × (s.timer_waits ≡ 0)
      × (s.expirations ≡ 30 ∷ [])
      × (s.cancellations ≡ 0)
  IsAt halted s =
      (s.is_shutting_down ≡ true)
      × (s.is_stopped ≡ true)
      × (s.expirations ≡ 30 ∷ [])
      × (s.cancellations ≡ 1)

  module _ (lib : Libraries E) (msgs : Messages P S) (setup : Setup) where
    turn-IsAt :
        (st : Stage) (e : ServerEvent E.Code) (s : Server P S)
        → IsAt st s
        → IsAt (next E e st) (loop_turn P S lib msgs setup e s)
    unfolding loop_turn on_signal on_timer stop
    turn-IsAt running (signal c) s h = ground arith
    turn-IsAt running (timer c) s h = ground arith
    turn-IsAt running (worker_event i e) s h = h
    turn-IsAt counting_down (signal c) s h = ground arith
    turn-IsAt counting_down (timer c) s h = ground arith
    turn-IsAt counting_down (worker_event i e) s h = h
    turn-IsAt waiting (signal c) s h = ground arith
    turn-IsAt waiting (timer c) s h = ground arith
    turn-IsAt waiting (worker_event i e) s h = h
    turn-IsAt halted (signal c) s h = ground arith
    turn-IsAt halted (timer c) s h = ground arith
    turn-IsAt halted (worker_event i e) s h = h

    loop-IsAt :
        (st : Stage) (es : List (ServerEvent E.Code)) (s : Server P S)
        → IsAt st s
        → IsAt (stages E st es) (loop P S lib msgs setup s es)
    unfolding loop
    loop-IsAt st [] s h = h
    loop-IsAt st (e ∷ es) s h = loop-IsAt (next E e st) es _ (turn-IsAt st e s h)

    -- Whatever completions come, and with any services, a started server is at the stage that its
    -- signals and timer bring about: it runs, with one wait for a signal and no timer, until a signal
    -- completes; from the first signal on it is shutting down, with one timer of 30 seconds, and
    -- waits for a second signal; the second signal, or the timer if its wait does not fail, halts it,
    -- and it has cancelled its signal set and its timer once; and then it stays halted.
    pub run_server-IsAt :
        (services : List (Acceptor P S)) (es : List (ServerEvent E.Code))
        → IsAt
            (stages E running es)
            (loop P S lib msgs setup (run_server P S (make_server P S services)) es)
    unfolding run_server make_server
    run_server-IsAt services es = loop-IsAt running es _ (refl, refl, refl, refl, refl, refl)
