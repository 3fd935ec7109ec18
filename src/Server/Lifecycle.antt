-- ===== src/Server/Lifecycle.antt =====
-- The class server of example/server/server.hpp and server.cpp, and the class acceptor of
-- example/server/acceptor.hpp, which is the service that it runs.
pub mod Laws
pub mod Stages
pub mod Cancels
pub mod Workers
pub mod Rest
pub mod Inputs
pub mod Isolated
pub mod Serves
use http_io.Common.{ℕ, suc, ◌-◌, Bool, true, false, List, [], ◌∷◌, ◌++◌, map, ◌==◌, if◌then◌else◌}
use http_io.System.{ErrorCodes}
use http_io.Parser.{Parser}
use http_io.Serializer.{Serializer}
use http_io.Server.Request.{Libraries}
use http_io.Server.Worker.{
  SocketCall, cancel, Messages, Setup, WorkerEvent, Worker, run_worker, stop_worker, on_event,
}

-- Completions that the event loop may deliver: of a signal wait, of the timer, and of what the
-- worker with an index waits for.
pub data ServerEvent (C : Type 0) : Type 0 where
  signal timer : C → ServerEvent C
  worker_event : ℕ → WorkerEvent C → ServerEvent C

module _ {E : ErrorCodes} (P : Parser E) (S : Serializer E) where
  pub record Acceptor : Type 0 where
    pub workers : List (Worker P S)
    -- The calls on the listening socket, apart from starting operations.
    pub calls : List SocketCall

  -- `signal_waits` and `timer_waits` count the waits that have not completed, and `expirations`
  -- lists the times in seconds that the timer was given.
  pub record Server : Type 0 where
    pub is_shutting_down : Bool
    pub is_stopped : Bool
    pub signal_waits : ℕ
    pub timer_waits : ℕ
    pub expirations : List ℕ
    pub cancellations : ℕ
    pub v_ : List Acceptor

  -- `server::server`, and the services that `make_service` adds.
  unfoldable pub make_server : List Acceptor → Server
  make_server services = record {
    is_shutting_down = false;
    is_stopped = false;
    signal_waits = 0;
    timer_waits = 0;
    expirations = [];
    cancellations = 0;
    v_ = services;
  }

  unfoldable pub run_acceptor : Acceptor → Acceptor
  run_acceptor a = record a { workers = map (run_worker P S) a.workers }

  pub stop_acceptor : Acceptor → Acceptor
  stop_acceptor a = record a {
    calls = a.calls ++ cancel ∷ [];
    workers = map (stop_worker P S) a.workers;
  }

  -- `server::run`, up to `ioc_.run()`.
  unfoldable pub run_server : Server → Server
  unfolding run_acceptor
  run_server s = record s { signal_waits = suc s.signal_waits; v_ = map run_acceptor s.v_ }

  -- `cancellations` counts the pairs of cancel calls on the signal set and the timer.
  unfoldable pub stop : Server → Server
  unfolding stop_acceptor
  stop s = if s.is_stopped then s else record s {
    is_stopped = true;
    cancellations = suc s.cancellations;
    v_ = map stop_acceptor s.v_;
  }

  -- Both handlers get an error code; on_signal does not look at it.
  unfoldable pub on_signal : E.Code → Server → Server
  unfolding stop
  on_signal ec s = if s.is_shutting_down then stop s else record s {
    is_shutting_down = true;
    signal_waits = suc s.signal_waits;
    expirations = s.expirations ++ 30 ∷ [];
    timer_waits = suc s.timer_waits;
  }

  unfoldable pub on_timer : E.Code → Server → Server
  unfolding stop
  on_timer ec s = if E.failed ec then s else stop s

  module _ (lib : Libraries E) (msgs : Messages P S) (setup : Setup) where
    pub update_worker : Bool → ℕ → WorkerEvent E.Code → List (Worker P S) → List (Worker P S)
    update_worker b i e [] = []
    update_worker b ℕ.zero e (w ∷ ws) = on_event P S lib msgs setup b e w ∷ ws
    update_worker b (suc i) e (w ∷ ws) = w ∷ update_worker b i e ws

    pub update_acceptor : Bool → ℕ → WorkerEvent E.Code → Acceptor → Acceptor
    unfolding update_worker
    update_acceptor b i e a = record a { workers = update_worker b i e a.workers }

    -- One turn of the event loop. A wait completes only if there is one. The server of main.cpp has
    -- one service, so the index counts the workers of each.
    unfoldable pub loop_turn : ServerEvent E.Code → Server → Server
    unfolding update_acceptor
    loop_turn (signal ec) s =
        if s.signal_waits == 0
        then s
        else on_signal ec (record s { signal_waits = s.signal_waits - 1 })
    loop_turn (timer ec) s =
        if s.timer_waits == 0 then s else on_timer ec (record s { timer_waits = s.timer_waits - 1 })
    loop_turn (worker_event i e) s = record s {
      v_ = map (update_acceptor s.is_shutting_down i e) s.v_;
    }

    unfoldable pub loop : Server → List (ServerEvent E.Code) → Server
    loop s [] = s
    loop s (e ∷ es) = loop (loop_turn e s) es
