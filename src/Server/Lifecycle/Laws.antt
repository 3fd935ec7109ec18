-- ===== src/Server/Lifecycle/Laws.antt =====
-- Shutting down and stopping, over every sequence of completions.
use http_io.Common.{◌≤◌, ◌≡◌, refl, true, false, List, [], ◌∷◌, ◌++◌, arith, if◌then◌else◌}
use http_io.System.{ErrorCodes}
use http_io.Parser.{Parser}
use http_io.Serializer.{Serializer}
use http_io.Server.Request.{Libraries}
use http_io.Server.Worker.{Messages, Setup}
use http_io.Server.Lifecycle.{
  ServerEvent, signal, timer, worker_event, Acceptor, Server, make_server, run_server, on_signal,
  on_timer, loop_turn, loop,
}

module _ {E : ErrorCodes} (P : Parser E) (S : Serializer E) where
  -- The stages of a shutdown: running with one wait for a signal; shutting down with a timer, of
  -- thirty seconds, and a second wait for a signal; stopped.
  pub record IsOrderly (s : Server P S) : Type 0 where
    pub one_wait : s.signal_waits ≤ 1
    pub one_timer : s.timer_waits ≤ 1
    pub running :
        s.is_shutting_down ≡ false
        → (s.is_stopped ≡ false) × (s.signal_waits ≡ 1) × (s.timer_waits ≡ 0) × (s.expirations ≡ [])
    pub graceful : s.is_shutting_down ≡ true → s.expirations ≡ 30 ∷ []
    pub stopping : (s.is_shutting_down ≡ true) → (s.is_stopped ≡ false) → (s.signal_waits ≡ 1)
    pub cancelled_once : s.cancellations ≡ (if s.is_stopped then 1 else 0)

  module _ (lib : Libraries E) (msgs : Messages P S) (setup : Setup) where
    loop_turn-IsOrderly :
        (e : ServerEvent E.Code) (s : Server P S)
        → IsOrderly s
        → IsOrderly (loop_turn P S lib msgs setup e s)
    unfolding loop_turn on_signal on_timer
    loop_turn-IsOrderly (signal ec) s o = ground arith
    loop_turn-IsOrderly (timer ec) s o = ground arith
    loop_turn-IsOrderly (worker_event i e) s o = record {
      one_wait = o.one_wait;
      one_timer = o.one_timer;
      running = o.running;
      graceful = o.graceful;
      stopping = o.stopping;
      cancelled_once = o.cancelled_once;
    }

    loop-IsOrderly :
        (s : Server P S) (es : List (ServerEvent E.Code))
        → IsOrderly s
        → IsOrderly (loop P S lib msgs setup s es)
    unfolding loop
    loop-IsOrderly s [] o = o
    loop-IsOrderly s (e ∷ es) o =
        loop-IsOrderly (loop_turn P S lib msgs setup e s) es (loop_turn-IsOrderly e s o)

    started-IsOrderly :
        (services : List (Acceptor P S)) → IsOrderly (run_server P S (make_server P S services))
    unfolding run_server make_server
    started-IsOrderly services = ground arith

    -- Whatever completions come, and with any services, a started server is orderly.
    pub run_server-IsOrderly :
        (services : List (Acceptor P S)) (es : List (ServerEvent E.Code))
        → IsOrderly (loop P S lib msgs setup (run_server P S (make_server P S services)) es)
    run_server-IsOrderly services es = loop-IsOrderly _ es (started-IsOrderly services)

    loop_turn-is_stopped :
        (e : ServerEvent E.Code) (s : Server P S)
        → s.is_stopped ≡ true
        → (loop_turn P S lib msgs setup e s).is_stopped ≡ true
    unfolding loop_turn on_signal on_timer
    loop_turn-is_stopped (signal ec) s h = ground arith
    loop_turn-is_stopped (timer ec) s h = ground arith
    loop_turn-is_stopped (worker_event i e) s h = h

    loop_turn-is_shutting_down :
        (e : ServerEvent E.Code) (s : Server P S)
        → s.is_shutting_down ≡ true
        → (loop_turn P S lib msgs setup e s).is_shutting_down ≡ true
    unfolding loop_turn on_signal on_timer
    loop_turn-is_shutting_down (signal ec) s h = ground arith
    loop_turn-is_shutting_down (timer ec) s h = ground arith
    loop_turn-is_shutting_down (worker_event i e) s h = h

    loop-is_stopped :
        (s : Server P S) (es : List (ServerEvent E.Code))
        → s.is_stopped ≡ true
        → (loop P S lib msgs setup s es).is_stopped ≡ true
    unfolding loop
    loop-is_stopped s [] h = h
    loop-is_stopped s (e ∷ es) h =
        loop-is_stopped (loop_turn P S lib msgs setup e s) es (loop_turn-is_stopped e s h)

    loop-is_shutting_down :
        (s : Server P S) (es : List (ServerEvent E.Code))
        → s.is_shutting_down ≡ true
        → (loop P S lib msgs setup s es).is_shutting_down ≡ true
    unfolding loop
    loop-is_shutting_down s [] h = h
    loop-is_shutting_down s (e ∷ es) h =
        loop-is_shutting_down (loop_turn P S lib msgs setup e s) es
          (loop_turn-is_shutting_down e s h)

    loop-append :
        (s : Server P S) (ds es : List (ServerEvent E.Code))
        → loop P S lib msgs setup s (ds ++ es)
          ≡ loop P S lib msgs setup (loop P S lib msgs setup s ds) es
    unfolding loop
    loop-append s [] es = refl
    loop-append s (d ∷ ds) es = loop-append (loop_turn P S lib msgs setup d s) ds es

    -- A signal starts the shutdown, or stops a server that is shutting down.
    signal_advances :
        (ec : E.Code) (s : Server P S)
        → IsOrderly s
        → ((loop_turn P S lib msgs setup (signal ec) s).is_shutting_down ≡ true)
          × (s.is_shutting_down ≡ true
              → (loop_turn P S lib msgs setup (signal ec) s).is_stopped ≡ true)
    unfolding loop_turn on_signal
    signal_advances ec s o = (ground arith, λ h. ground arith)

    -- Two signals stop a started server, whatever else completes before, between and after them.
    pub run_server_stops :
        (services : List (Acceptor P S)) (c d : E.Code) (bs ds es : List (ServerEvent E.Code))
        → (loop P S lib msgs setup
            (run_server P S (make_server P S services))
            (bs ++ signal c ∷ (ds ++ signal d ∷ es))).is_stopped
          ≡ true
    unfolding loop
    run_server_stops services c d bs ds es =
        let go = loop P S lib msgs setup in
        let s0 = run_server P S (make_server P S services) in
        let s1 = go s0 bs in
        let o1 = loop-IsOrderly s0 bs (started-IsOrderly services) in
        let s2 = loop_turn P S lib msgs setup (signal c) s1 in
        let o2 = loop_turn-IsOrderly (signal c) s1 o1 in
        let s3 = go s2 ds in
        let o3 = loop-IsOrderly s2 ds o2 in
        let down = loop-is_shutting_down s2 ds (signal_advances c s1 o1).0 in
        rw (loop-append s0 bs (signal c ∷ (ds ++ signal d ∷ es)), loop-append s2 ds (signal d ∷ es))
          (loop-is_stopped (loop_turn P S lib msgs setup (signal d) s3) es
            ((signal_advances d s3 o3).1 down))
