-- ===== src/Client/Request.antt =====
-- The coroutines connect, write_get_request and request of example/client/flex_await/main.cpp, with
-- the reads and writes of the library that they wait for. Each `co_await` is a stage at which the
-- client waits; a failed operation throws at it.
pub mod Stages
pub mod Fetch
pub mod Asks
pub mod Returns
pub mod Journey
pub mod Hears
pub mod Protocol
pub mod Matching
pub mod Refinement
pub mod Errors
pub mod Ending
pub mod Safety
pub mod Printing
pub mod Output
use http_io.Common.{
  ℕ, Bool, true, false, ◌&&◌, not, List, [], ◌∷◌, ◌++◌, Option, none, some, length, if◌then◌else◌,
}
use http_io.System.{ErrorCodes}
use http_io.Asio.{Action, post, initiate, complete, ended, assert_failed}
use http_io.Asio.Machine.{drive}
use http_io.Parser.{Parser}
use http_io.Serializer.{Serializer, Buffers}
use http_io.Text.{Text}
use http_io.Read
use http_io.Read.{Turn, ReadSome}
use http_io.Read.Header.{read_header_op, async_read_header}
use http_io.Read.Body.{Started, started, read_body_op, async_read_some}
use http_io.Write
use http_io.Write.All
use http_io.Write.All.{Session, WriteSome, async_write}
use http_io.Client.Libraries.{Urls, Response, ResponseParser, Network}
use http_io.Client.Stream.{StreamCall, shutdown_call}
use http_io.Client.Visit.{Visit, visit_of, uses_tls, is_redirect, RequestCall, get_request}
pub use http_io.Client.State.{
  Exception, system_error, runtime_error, logic_error, Call, resolve, connect, set_host_name,
  handshake, send, shutdown, ClientEvent, resolved, connected, handshaken, shut_down, read_event,
  write_event, Pending, resolving, connecting, handshaking, leaving, writing, reading_header,
  reading_body, closing, returned, threw, undefined, Client,
}

module _ {E : ErrorCodes} (P : Parser E) (S : Serializer E) (net : Network E) where
  pub add_call : Call net.Results → Client P S net → Client P S net
  add_call c w = record w { calls = w.calls ++ c ∷ [] }

  pub throw : E.Code → Client P S net → Client P S net
  throw ec w = record w { pending = threw (system_error ec) }

  -- `connect`
  pub start_connect : Visit → Client P S net → Client P S net
  unfolding add_call
  start_connect v w = record (add_call (resolve v.host v.service) w) { pending = resolving v }

  pub on_resolved : E.Code → net.Results → Visit → Client P S net → Client P S net
  unfolding add_call throw
  on_resolved ec results v w =
      if E.failed ec
      then throw ec w
      else record (add_call (connect (uses_tls v) results) w) { pending = connecting v }

  pub start_handshake : Option E.Code → Visit → Client P S net → Client P S net
  unfolding add_call throw
  start_handshake (some ec) v w = throw ec (add_call (set_host_name v.host) w)
  start_handshake none v w = record (add_call handshake (add_call (set_host_name v.host) w)) {
    pending = handshaking v;
  }

  module _ (R : ResponseParser P) (zlib : Bool) (start : List RequestCall → S.State) where
    -- `write_get_request` over the new stream; `start` makes a serializer and starts it.
    pub write_get_request : Visit → Client P S net → Client P S net
    unfolding add_call get_request
    write_get_request v w = record (add_call (send (get_request zlib v)) w) {
      pending = writing (async_write E S (start (get_request zlib v)));
    }

    pub on_connected : E.Code → Visit → Client P S net → Client P S net
    unfolding start_handshake write_get_request throw
    on_connected ec v w =
        if E.failed ec
        then throw ec w
        else if uses_tls v
        then start_handshake (net.set_host_name v.host) v w
        else write_get_request v (record w { secure = false })

    pub on_handshaken : E.Code → Visit → Client P S net → Client P S net
    unfolding write_get_request throw
    on_handshaken ec v w =
        if E.failed ec then throw ec w else write_get_request v (record w { secure = true })

    -- `request`, behind `write_get_request`
    pub on_write : E.Code → Client P S net → Client P S net
    unfolding throw
    on_write ec w =
        let p = P.start (P.reset w.parser) in
        if E.failed ec
        then throw ec w
        else record w { parser = p; pending = reading_header (async_read_header E P p) }

    -- The loop over the buffers of `pull_body`.
    pub print_body : Buffers → Client P S net → Client P S net
    print_body [] w = w
    print_body (b ∷ bs) w =
        print_body bs
          (record w { output = w.output ++ b; parser = R.consume_body (length b) w.parser })

    pub start_shutdown : Pending P S net → Client P S net → Client P S net
    unfolding add_call
    start_shutdown next w = record (add_call (shutdown (shutdown_call w.secure)) w) {
      pending = next;
    }

    pub start_read : Started (Turn E P) → Client P S net → Client P S net
    start_read Started.logic_error w = record w { pending = threw logic_error }
    start_read (started t) w = record w { pending = reading_body t }

    -- One turn of the loop over the body, up to its `co_await`.
    pub read_body : Client P S net → Client P S net
    unfolding print_body start_shutdown start_read
    read_body w =
        let w' = print_body (R.pull_body w.parser) w in
        if P.is_complete w'.parser
        then start_shutdown closing w'
        else start_read (async_read_some E P w'.parser) w'

    pub on_read_some : E.Code → Client P S net → Client P S net
    unfolding read_body throw
    on_read_some ec w =
        if E.failed ec && not (E.is_need_more_input ec) then throw ec w else read_body w

    pub on_closed : E.Code → Client P S net → Client P S net
    unfolding throw
    on_closed ec w =
        if E.failed ec && not (net.is_stream_truncated ec)
        then throw ec w
        else record w { pending = returned }

    module _ (urls : Urls) where
      pub follow : Option urls.Url → Client P S net → Client P S net
      unfolding start_shutdown visit_of
      follow none w = record w { pending = undefined }
      follow (some url) w = start_shutdown (leaving (visit_of urls url)) w

      pub redirect : Option Text → Client P S net → Client P S net
      unfolding follow
      redirect none w = record w { pending = threw runtime_error }
      redirect (some location) w = follow (urls.parse_uri location) w

      -- The test of the loop over redirects, and its body up to the `co_await`.
      pub respond : Response → Client P S net → Client P S net
      unfolding redirect read_body
      respond resp w = if is_redirect resp.status then redirect resp.location w else read_body w

      pub on_header : E.Code → Client P S net → Client P S net
      unfolding respond throw
      on_header ec w = if E.failed ec then throw ec w else respond (R.get w.parser) w

      pub after_write : Action E.Code WriteSome → Session E S → Client P S net → Client P S net
      unfolding on_write
      after_write (complete ec n) s w = on_write ec w
      after_write a s w = record w { pending = writing s }

      pub after_header : Action E.Code ReadSome → Turn E P → Client P S net → Client P S net
      unfolding on_header
      after_header (complete ec n) t w = on_header ec (record w { parser = t.parser })
      after_header a t w = record w { pending = reading_header t }

      pub after_body : Action E.Code ReadSome → Turn E P → Client P S net → Client P S net
      unfolding on_read_some
      after_body (complete ec n) t w = on_read_some ec (record w { parser = t.parser })
      after_body a t w = record w { pending = reading_body t }

      -- An event that the client does not wait for leaves it alone.
      pub dispatch :
          Pending P S net → ClientEvent E.Code net.Results → Client P S net → Client P S net
      unfolding on_resolved on_connected on_handshaken start_connect on_closed after_write
          after_header after_body
      dispatch (resolving v) (resolved ec results) w = on_resolved ec results v w
      dispatch (connecting v) (connected ec) w = on_connected ec v w
      dispatch (handshaking v) (handshaken ec) w = on_handshaken ec v w
      dispatch (leaving v) (shut_down ec) w = start_connect v w
      dispatch (writing s) (write_event e) w =
          let s' = All.deliver E S s e in after_write s'.action s' w
      dispatch (reading_header t) (read_event e) w =
          let t' = Read.deliver E P (read_header_op E P) t.action t e in after_header t'.action t' w
      dispatch (reading_body t) (read_event e) w =
          let t' = Read.deliver E P (read_body_op E P true) t.action t e in
          after_body t'.action t' w
      dispatch closing (shut_down ec) w = on_closed ec w
      dispatch p e w = w

      unfoldable pub on_event : ClientEvent E.Code net.Results → Client P S net → Client P S net
      unfolding dispatch
      on_event e w = dispatch w.pending e w

      abbrev pub run : Client P S net → List (ClientEvent E.Code net.Results) → Client P S net
      run w es = drive on_event w es

      -- `request` up to its first `co_await`, with the parser that it will construct.
      unfoldable pub request : Visit → P.State → Client P S net
      unfolding start_connect
      request v p =
          start_connect v
            (record { parser = p; secure = false; output = []; calls = []; pending = returned })
