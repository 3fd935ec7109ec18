-- ===== src/Server/Worker.antt =====
-- The class worker of example/server/main.cpp, with the reads and writes of the library that it
-- waits for.
pub mod Laws
pub mod Drain
pub mod Calls
pub mod Responses
pub mod Stages
pub mod Round
pub mod Connection
pub mod Decoding
pub mod Replies
use http_io.Common.{ℕ, Bool, true, false, List, [], ◌∷◌, ◌++◌, if◌then◌else◌}
use http_io.System.{ErrorCodes}
use http_io.Asio.{Action, post, initiate, complete, ended, assert_failed}
use http_io.Parser.{Parser}
use http_io.Serializer.{Serializer, Buffers}
use http_io.Text.{Text}
use http_io.Read
use http_io.Read.{Turn, ReadSome}
use http_io.Read.Header.{read_header_op, async_read_header}
use http_io.Read.Body.{Started, logic_error, started, read_body_op, async_read}
use http_io.Write
use http_io.Write.All.{Session, WriteSome, async_write}
use http_io.Write.All
use http_io.Server.Request.{
  Libraries, Request, Effect, bad_access, handle_request, service_unavailable,
}
use http_io.Server.Request.Laws.{is_undefined}

-- What the worker calls on its socket, apart from starting operations.
pub data SocketCall : Type 0 where
  close cancel shutdown_send : SocketCall

-- The parts of Boost.Http.Proto between the library's reads and writes: the request that a parser
-- holds, a serializer started by what a handler did, and what the response says of the connection.
pub record Messages {E : ErrorCodes} (P : Parser E) (S : Serializer E) : Type 0 where
  pub get : P.State → Request
  pub start : List Effect → S.State → S.State
  pub keep_alive : List Effect → Bool

-- How the server is set up.
pub record Setup : Type 0 where
  pub msvc : Bool
  pub doc_root : Text

pub data WorkerEvent (C : Type 0) : Type 0 where
  accepted : C → WorkerEvent C
  read_event : Read.Event C → WorkerEvent C
  write_event : Write.Event C → WorkerEvent C

module _ {E : ErrorCodes} (P : Parser E) (S : Serializer E) where
  -- What the worker waits for.
  pub data Pending : Type 0 where
    idle accepting : Pending
    reading_header reading_body : Turn E P → Pending
    writing : Session E S → Pending
    -- A handler left by an exception, or by undefined behaviour.
    threw undefined : Pending

  pub record Worker : Type 0 where
    pub id_ : ℕ
    pub parser : P.State
    pub response : List Effect
    pub serializer : S.State
    pub calls : List SocketCall
    pub pending : Pending

  unfoldable pub call_socket : SocketCall → Worker → Worker
  call_socket c w = record w { calls = w.calls ++ c ∷ [] }

  unfoldable pub do_accept : Worker → Worker
  unfolding call_socket
  do_accept w = record (call_socket close w) { parser = P.reset w.parser; pending = accepting }

  -- `worker::run` and `worker::stop`
  unfoldable pub run_worker : Worker → Worker
  unfolding do_accept
  run_worker w = do_accept w

  unfoldable pub stop_worker : Worker → Worker
  unfolding call_socket
  stop_worker w = call_socket cancel w

  pub fail : E.Code → Worker → Worker
  fail ec w = if E.is_aborted ec then w else if E.is_eof ec then call_socket shutdown_send w else w

  -- How each handler ends when its operation failed.
  pub give_up : E.Code → Worker → Worker
  give_up ec w =
      if E.is_aborted ec then record (fail ec w) { pending = idle } else do_accept (fail ec w)

  pub do_read : Worker → Worker
  do_read w =
      let p = P.start w.parser in
      record w { parser = p; pending = reading_header (async_read_header E P p) }

  pub on_accept : E.Code → Worker → Worker
  on_accept ec w = if E.failed ec then give_up ec w else do_read w

  pub start_read : Started (Turn E P) → Worker → Worker
  start_read logic_error w = record w { pending = threw }
  start_read (started t) w = record w { pending = reading_body t }

  pub on_read_header : E.Code → Worker → Worker
  on_read_header ec w = if E.failed ec then give_up ec w else start_read (async_read E P w.parser) w

  -- The operation goes on, or its completion calls the worker's handler.
  pub after_header : Action E.Code ReadSome → Turn E P → Worker → Worker
  after_header (complete ec n) t w = on_read_header ec (record w { parser = t.parser })
  after_header a t w = record w { pending = reading_header t }

  module _ (lib : Libraries E) (msgs : Messages P S) (setup : Setup) where
    -- The answer while the server runs, and while it shuts down.
    unfoldable pub answer : Bool → Request → List Effect
    answer shutting_down req =
        if shutting_down
        then service_unavailable lib req
        else handle_request lib setup.msvc setup.doc_root req

    pub send : List Effect → Worker → Worker
    send effects w =
        let sr = msgs.start effects w.serializer in
        if is_undefined effects
        then record w { response = effects; pending = undefined }
        else record w {
          response = effects;
          serializer = sr;
          pending = writing (async_write E S sr);
        }

    pub on_read_body : Bool → E.Code → Worker → Worker
    on_read_body shutting_down ec w =
        if E.failed ec then give_up ec w else send (answer shutting_down (msgs.get w.parser)) w

    pub on_write : E.Code → Worker → Worker
    on_write ec w =
        if E.failed ec
        then give_up ec w
        else if msgs.keep_alive w.response
        then do_read w
        else do_accept w

    pub after_body : Bool → Action E.Code ReadSome → Turn E P → Worker → Worker
    after_body shutting_down (complete ec n) t w =
        on_read_body shutting_down ec (record w { parser = t.parser })
    after_body shutting_down a t w = record w { pending = reading_body t }

    pub after_write : Action E.Code WriteSome → Session E S → Worker → Worker
    after_write (complete ec n) s w = on_write ec (record w { serializer = s.some_turn.serializer })
    after_write a s w = record w { pending = writing s }

    -- An event that the worker does not wait for leaves it alone.
    pub dispatch : Bool → Pending → WorkerEvent E.Code → Worker → Worker
    dispatch shutting_down accepting (accepted ec) w = on_accept ec w
    dispatch shutting_down (reading_header t) (read_event e) w =
        let t' = Read.deliver E P (read_header_op E P) t.action t e in after_header t'.action t' w
    dispatch shutting_down (reading_body t) (read_event e) w =
        let t' = Read.deliver E P (read_body_op E P false) t.action t e in
        after_body shutting_down t'.action t' w
    dispatch shutting_down (writing s) (write_event e) w =
        let s' = All.deliver E S s e in after_write s'.action s' w
    dispatch shutting_down p e w = w

    unfoldable pub on_event : Bool → WorkerEvent E.Code → Worker → Worker
    unfolding dispatch
    on_event shutting_down e w = dispatch shutting_down w.pending e w
