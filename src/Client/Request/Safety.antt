-- ===== src/Client/Request/Safety.antt =====
-- The client never asks for a body before it has a header.
use http_io.Common.{
  ◌≡◌, ◌≢◌, refl, ◌∙◌, Bool, true, false, List, [], ◌∷◌, Option, none, some, arith, length,
}
use http_io.System.{ErrorCodes}
use http_io.Asio.{Action, post, initiate, complete, ended, assert_failed}
use http_io.Parser.{Parser, IsLawful}
use http_io.Serializer.{Serializer, Buffers}
use http_io.Text.{Text}
use http_io.Read
use http_io.Read.{Turn, ReadSome}
use http_io.Read.Run.{run-single}
use http_io.Read.Header.{read_header_op}
use http_io.Read.Header.Laws.{Sound, IsSound, begun-IsSound, run-IsSound}
use http_io.Read.Body.{async_read_some}
use http_io.Read.Body.Keeps.{begin_body-keeps, deliver_body-keeps}
use http_io.Write.All.{Session, WriteSome}
use http_io.Client.Libraries
use http_io.Client.Libraries.{Urls, Response, ResponseParser, Network}
use http_io.Client.Visit.{Visit, RequestCall}
use http_io.Asio.Machine.{drive-Inv}
use http_io.Client.Request.{
  system_error, runtime_error, logic_error, ClientEvent, resolved, connected, handshaken, shut_down,
  read_event, write_event, Pending, resolving, connecting, handshaking, leaving, writing,
  reading_header, reading_body, closing, returned, threw, undefined, Client, on_resolved,
  start_handshake, on_connected, on_handshaken, on_write, print_body, start_read, read_body,
  on_read_some, on_closed, follow, redirect, respond, on_header, after_write, after_header,
  after_body, dispatch, on_event, run, request,
}

module _ {E : ErrorCodes} (P : Parser E) (S : Serializer E) (net : Network E)
    (L : IsLawful E P) where
  -- No std::logic_error was thrown, a read of a header is on its way to one, and a read of a body
  -- has it.
  abbrev Safe : Pending P S net → Type 0
  Safe (reading_header t) = IsSound E P L t
  Safe (reading_body t) = P.got_header t.parser ≡ true
  Safe (threw (system_error c)) = Unit
  Safe (threw runtime_error) = Unit
  Safe (threw logic_error) = ⊥
  Safe (resolving v) = Unit
  Safe (connecting v) = Unit
  Safe (handshaking v) = Unit
  Safe (leaving v) = Unit
  Safe (writing s) = Unit
  Safe closing = Unit
  Safe returned = Unit
  Safe undefined = Unit

  abbrev IsSafe : Client P S net → Type 0
  IsSafe w = Safe w.pending

  on_resolved-IsSafe :
      (ec : E.Code) (results : net.Results) (v : Visit) (w : Client P S net)
      → IsSafe (on_resolved P S net ec results v w)
  unfolding on_resolved
  on_resolved-IsSafe ec results v w = ground arith

  start_handshake-IsSafe :
      (o : Option E.Code) (v : Visit) (w : Client P S net) → IsSafe (start_handshake P S net o v w)
  unfolding start_handshake
  start_handshake-IsSafe none v w = tt
  start_handshake-IsSafe (some ec) v w = tt

  module _ (R : ResponseParser P) (zlib : Bool) (start : List RequestCall → S.State)
      (B : Libraries.IsLawful P R) where
    on_connected-IsSafe :
        (ec : E.Code) (v : Visit) (w : Client P S net)
        → IsSafe (on_connected P S net R zlib start ec v w)
    unfolding on_connected
    on_connected-IsSafe ec v w =
        ground (arith, start_handshake-IsSafe (net.set_host_name v.host) v w)

    on_handshaken-IsSafe :
        (ec : E.Code) (v : Visit) (w : Client P S net)
        → IsSafe (on_handshaken P S net R zlib start ec v w)
    unfolding on_handshaken
    on_handshaken-IsSafe ec v w = ground arith

    on_write-IsSafe :
        (ec : E.Code) (w : Client P S net) → IsSafe (on_write P S net R zlib start ec w)
    unfolding on_write
    on_write-IsSafe ec w = ground (arith, begun-IsSound E P L (P.start (P.reset w.parser)))

    header-print_body :
        (bs : Buffers) (w : Client P S net)
        → P.got_header (print_body P S net R zlib start bs w).parser ≡ P.got_header w.parser
    unfolding print_body
    header-print_body [] w = refl
    header-print_body (b ∷ bs) w =
        header-print_body bs _ ∙ B.header-consume_body (length b) w.parser

    started-IsSafe :
        (p : P.State) (w : Client P S net)
        → P.got_header p ≡ true
        → IsSafe (start_read P S net R zlib start (async_read_some E P p) w)
    unfolding start_read async_read_some
    started-IsSafe p w h = rw h (begin_body-keeps E P _ B.header_kept true p h)

    read_body-IsSafe :
        (w : Client P S net)
        → P.got_header w.parser ≡ true
        → IsSafe (read_body P S net R zlib start w)
    unfolding read_body
    read_body-IsSafe w h =
        let w' = print_body P S net R zlib start (R.pull_body w.parser) w in
        ground (arith, started-IsSafe w'.parser w' (header-print_body (R.pull_body w.parser) w ∙ h))

    on_read_some-IsSafe :
        (ec : E.Code) (w : Client P S net)
        → P.got_header w.parser ≡ true
        → IsSafe (on_read_some P S net R zlib start ec w)
    unfolding on_read_some
    on_read_some-IsSafe ec w h = ground (arith, read_body-IsSafe w h)

    on_closed-IsSafe :
        (ec : E.Code) (w : Client P S net) → IsSafe (on_closed P S net R zlib start ec w)
    unfolding on_closed
    on_closed-IsSafe ec w = ground arith

    module _ (urls : Urls) where
      follow-IsSafe :
          (o : Option urls.Url) (w : Client P S net) → IsSafe (follow P S net R zlib start urls o w)
      unfolding follow
      follow-IsSafe none w = tt
      follow-IsSafe (some url) w = tt

      redirect-IsSafe :
          (o : Option Text) (w : Client P S net) → IsSafe (redirect P S net R zlib start urls o w)
      unfolding redirect
      redirect-IsSafe none w = tt
      redirect-IsSafe (some location) w = follow-IsSafe (urls.parse_uri location) w

      on_header-IsSafe :
          (ec : E.Code) (w : Client P S net)
          → (E.failed ec ≡ false → P.got_header w.parser ≡ true)
          → IsSafe (on_header P S net R zlib start urls ec w)
      unfolding on_header respond
      on_header-IsSafe ec w h = ground (
        arith,
        h,
        redirect-IsSafe (R.get w.parser).location w,
        λ (g : P.got_header w.parser ≡ true). read_body-IsSafe w g,
      )

      after_write-IsSafe :
          (a : Action E.Code WriteSome) (s : Session E S) (w : Client P S net)
          → IsSafe (after_write P S net R zlib start urls a s w)
      unfolding after_write
      after_write-IsSafe (complete ec n) s w = on_write-IsSafe ec w
      after_write-IsSafe (post ec n) s w = tt
      after_write-IsSafe (initiate r) s w = tt
      after_write-IsSafe ended s w = tt
      after_write-IsSafe assert_failed s w = tt

      after_header-IsSafe :
          (a : Action E.Code ReadSome) (t : Turn E P) (w : Client P S net)
          → t.action ≡ a
          → Sound E P L a t.op.point t.parser
          → IsSafe (after_header P S net R zlib start urls a t w)
      unfolding after_header
      after_header-IsSafe (complete ec n) t w e s = on_header-IsSafe ec _ s
      after_header-IsSafe (post ec n) t w e s = rw e s
      after_header-IsSafe (initiate r) t w e s = rw e s
      after_header-IsSafe ended t w e s = rw e s
      after_header-IsSafe assert_failed t w e s = rw e s

      after_body-IsSafe :
          (a : Action E.Code ReadSome) (t : Turn E P) (w : Client P S net)
          → P.got_header t.parser ≡ true
          → IsSafe (after_body P S net R zlib start urls a t w)
      unfolding after_body
      after_body-IsSafe (complete ec n) t w h = on_read_some-IsSafe ec _ h
      after_body-IsSafe (post ec n) t w h = h
      after_body-IsSafe (initiate r) t w h = h
      after_body-IsSafe ended t w h = h
      after_body-IsSafe assert_failed t w h = h

      dispatch-IsSafe :
          (p : Pending P S net) (e : ClientEvent E.Code net.Results) (w : Client P S net)
          → Safe p
          → IsSafe w
          → IsSafe (dispatch P S net R zlib start urls p e w)
      unfolding dispatch
      dispatch-IsSafe (resolving v) (resolved ec results) w s i = on_resolved-IsSafe ec results v w
      dispatch-IsSafe (connecting v) (connected ec) w s i = on_connected-IsSafe ec v w
      dispatch-IsSafe (handshaking v) (handshaken ec) w s i = on_handshaken-IsSafe ec v w
      dispatch-IsSafe (leaving v) (shut_down ec) w s i = tt
      dispatch-IsSafe (writing t) (write_event e) w s i = after_write-IsSafe _ _ w
      dispatch-IsSafe (reading_header t) (read_event e) w s i =
          let t' = Read.deliver E P (read_header_op E P) t.action t e in
          after_header-IsSafe t'.action t' w refl
            (rw (run-single E P (read_header_op E P) t e) at (run-IsSound E P L t (e ∷ []) s))
      dispatch-IsSafe (reading_body t) (read_event e) w s i =
          after_body-IsSafe _ _ w (deliver_body-keeps E P _ B.header_kept true t e s)
      dispatch-IsSafe closing (shut_down ec) w s i = on_closed-IsSafe ec w
      dispatch-IsSafe p e w s i = i

      on_event-IsSafe :
          (e : ClientEvent E.Code net.Results) (w : Client P S net)
          → IsSafe w
          → IsSafe (on_event P S net R zlib start urls e w)
      unfolding on_event
      on_event-IsSafe e w i = dispatch-IsSafe w.pending e w i i

      -- With a lawful parser, whatever completes, and whatever the responses say, `request` is never
      -- left by the std::logic_error of `async_read_some`.
      pub request-ne-logic_error :
          (v : Visit) (p : P.State) (es : List (ClientEvent E.Code net.Results))
          → (run P S net R zlib start urls (request P S net R zlib start urls v p) es).pending
            ≢ threw logic_error
      unfolding request
      request-ne-logic_error v p es h =
          let safe : Safe (threw logic_error) = rw h at (
            drive-Inv (on_event P S net R zlib start urls) IsSafe on_event-IsSafe
              (request P S net R zlib start urls v p) es tt) in
          safe
