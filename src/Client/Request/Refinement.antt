-- ===== src/Client/Request/Refinement.antt =====
-- The client refines the abstract one.
use http_io.Common.{◌≡◌, refl, Bool, List}
use http_io.System.{ErrorCodes}
use http_io.Asio.{Action, post, initiate, complete, ended, assert_failed}
use http_io.Parser.{Parser}
use http_io.Serializer.{Serializer}
use http_io.Read.{Turn, ReadSome}
use http_io.Write.All.{Session, WriteSome}
use http_io.Client.Libraries.{Urls, ResponseParser, Network}
use http_io.Client.Visit.{Visit, uses_tls, RequestCall}
use http_io.Asio.Machine.{drive-Inv}
use http_io.Client.Request.Protocol.{Stage, requested, resolves, here, next}
use http_io.Client.Request.{
  ClientEvent, resolved, connected, handshaken, shut_down, read_event, write_event, Pending,
  resolving, connecting, handshaking, leaving, writing, reading_header, reading_body, closing,
  Client, start_connect, after_write, after_header, after_body, dispatch, on_event, run, request,
}
use http_io.Client.Request.Matching.{
  Matches, Refines, At, Requested, on_resolved-Refines, on_connected-Refines, on_handshaken-Refines,
  on_write-Refines, on_read_some-Refines, on_closed-Refines, on_header-Refines,
}

module _ {E : ErrorCodes} (P : Parser E) (S : Serializer E) (net : Network E) (R : ResponseParser P)
    (zlib : Bool) (start : List RequestCall → S.State) (urls : Urls) where
  module _ (first : Visit) where
    after_write-Refines :
        (a : Action E.Code WriteSome) (t : Session E S) (w : Client P S net)
        → Requested P S net R zlib start urls first w
        → Refines P S net R zlib start urls first (after_write P S net R zlib start urls a t w)
    unfolding after_write
    after_write-Refines (complete ec n) t w q =
        on_write-Refines P S net R zlib start urls first ec w q
    after_write-Refines (post ec n) t w (v, r, m) = (requested v, r, (v, refl, m))
    after_write-Refines (initiate i) t w (v, r, m) = (requested v, r, (v, refl, m))
    after_write-Refines ended t w (v, r, m) = (requested v, r, (v, refl, m))
    after_write-Refines assert_failed t w (v, r, m) = (requested v, r, (v, refl, m))

    after_header-Refines :
        (a : Action E.Code ReadSome) (t : Turn E P) (w : Client P S net)
        → Requested P S net R zlib start urls first w
        → Refines P S net R zlib start urls first (after_header P S net R zlib start urls a t w)
    unfolding after_header
    after_header-Refines (complete ec n) t w q =
        on_header-Refines P S net R zlib start urls first ec _ q
    after_header-Refines (post ec n) t w (v, r, m) = (requested v, r, (v, refl, m))
    after_header-Refines (initiate i) t w (v, r, m) = (requested v, r, (v, refl, m))
    after_header-Refines ended t w (v, r, m) = (requested v, r, (v, refl, m))
    after_header-Refines assert_failed t w (v, r, m) = (requested v, r, (v, refl, m))

    after_body-Refines :
        (a : Action E.Code ReadSome) (t : Turn E P) (w : Client P S net)
        → Requested P S net R zlib start urls first w
        → Refines P S net R zlib start urls first (after_body P S net R zlib start urls a t w)
    unfolding after_body
    after_body-Refines (complete ec n) t w q =
        on_read_some-Refines P S net R zlib start urls first ec _ q
    after_body-Refines (post ec n) t w (v, r, m) = (requested v, r, (v, refl, m))
    after_body-Refines (initiate i) t w (v, r, m) = (requested v, r, (v, refl, m))
    after_body-Refines ended t w (v, r, m) = (requested v, r, (v, refl, m))
    after_body-Refines assert_failed t w (v, r, m) = (requested v, r, (v, refl, m))

    -- From where the abstract client is, if the stage is not known to be any.
    stage-Requested :
        (w : Client P S net) (s : Stage) (v : Visit)
        → At P S net R zlib start urls first w.calls s
        → s ≡ requested v
        → w.secure ≡ uses_tls v
        → Requested P S net R zlib start urls first w
    stage-Requested w s v r e m = (v, rw e at r, m)

    dispatch-Refines :
        (p : Pending P S net) (e : ClientEvent E.Code net.Results) (w : Client P S net) (s : Stage)
        → At P S net R zlib start urls first w.calls s
        → Matches P S net R zlib start urls p w.secure s
        → Refines P S net R zlib start urls first w
        → Refines P S net R zlib start urls first (dispatch P S net R zlib start urls p e w)
    unfolding dispatch start_connect
    dispatch-Refines (resolving v) (resolved ec results) w s r m i =
        on_resolved-Refines P S net R zlib start urls first ec results v w (rw m at r)
    dispatch-Refines (connecting v) (connected ec) w s r m i =
        on_connected-Refines P S net R zlib start urls first ec v w (rw m at r)
    dispatch-Refines (handshaking v) (handshaken ec) w s r m i =
        on_handshaken-Refines P S net R zlib start urls first ec v w m.1 (rw (m.0) at r)
    dispatch-Refines (leaving v) (shut_down ec) w s r m i =
        (Stage.resolving v, next (rw m at r) (resolves v), refl)
    dispatch-Refines (writing t) (write_event e) w s r (v, at_v, m) i =
        after_write-Refines _ _ w (stage-Requested w s v r at_v m)
    dispatch-Refines (reading_header t) (read_event e) w s r (v, at_v, m) i =
        after_header-Refines _ _ w (stage-Requested w s v r at_v m)
    dispatch-Refines (reading_body t) (read_event e) w s r (v, at_v, m) i =
        after_body-Refines _ _ w (stage-Requested w s v r at_v m)
    dispatch-Refines closing (shut_down ec) w s r m i =
        on_closed-Refines P S net R zlib start urls first ec w (rw m at r)
    dispatch-Refines p e w s r m i = i

    on_event-Refines :
        (e : ClientEvent E.Code net.Results) (w : Client P S net)
        → Refines P S net R zlib start urls first w
        → Refines P S net R zlib start urls first (on_event P S net R zlib start urls e w)
    unfolding on_event
    on_event-Refines e w (s, r, m) = dispatch-Refines w.pending e w s r m (s, r, m)

  -- Whatever completes, the calls of `request` are a route of the abstract client from its first
  -- visit, to where that is when the client waits as it does.
  pub request-Refines :
      (v : Visit) (p : P.State) (es : List (ClientEvent E.Code net.Results))
      → Refines P S net R zlib start urls v
          (run P S net R zlib start urls (request P S net R zlib start urls v p) es)
  unfolding request
  request-Refines v p es =
      drive-Inv (on_event P S net R zlib start urls) (Refines P S net R zlib start urls v)
        (on_event-Refines v) (request P S net R zlib start urls v p) es
        (Stage.resolving v, next here (resolves v), refl)
