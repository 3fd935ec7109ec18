-- ===== src/Client/Request/Output.antt =====
-- What the client prints.
use http_io.Common.{◌≡◌, refl, sym, ◌∙◌, Bool, true, List, [], Option, none, some, arith}
use http_io.System.{ErrorCodes}
use http_io.Asio.{Action, post, initiate, complete, ended, assert_failed}
use http_io.Parser.{Parser}
use http_io.Serializer.{Serializer}
use http_io.Text.{Text}
use http_io.Read.{Turn, ReadSome}
use http_io.Read.Header.Keeps.{deliver_header-keeps}
use http_io.Read.Body.Keeps.{deliver_body-keeps}
use http_io.Write.All.{Session, WriteSome}
use http_io.Client.Libraries.{Urls, ResponseParser, IsLawful, Network}
use http_io.Client.Visit.{Visit, RequestCall}
use http_io.Asio.Machine.{drive-Inv}
use http_io.Client.Request.{
  ClientEvent, resolved, connected, handshaken, shut_down, read_event, write_event, Pending,
  resolving, connecting, handshaking, leaving, writing, reading_header, reading_body, closing,
  returned, Client, follow, redirect, respond, on_header, after_write, after_header, after_body,
  dispatch, on_event, run, request,
}
use http_io.Client.Request.Printing.{
  HasPrinted, Prints, IsPrinting, on_resolved-IsPrinting, on_connected-IsPrinting,
  on_handshaken-IsPrinting, on_write-IsPrinting, read_body-IsPrinting, on_read_some-IsPrinting,
  on_closed-IsPrinting,
}

module _ {E : ErrorCodes} (P : Parser E) (S : Serializer E) (net : Network E) (R : ResponseParser P)
    (zlib : Bool) (start : List RequestCall → S.State) (L : IsLawful P R) where
  open L use {available, consumed}

  module _ (urls : Urls) where
    follow-IsPrinting :
        (o : Option urls.Url) (w : Client P S net)
        → w.output ≡ []
        → IsPrinting P S net R zlib start L (follow P S net R zlib start urls o w)
    unfolding follow
    follow-IsPrinting none w h = tt
    follow-IsPrinting (some url) w h = h

    redirect-IsPrinting :
        (o : Option Text) (w : Client P S net)
        → w.output ≡ []
        → IsPrinting P S net R zlib start L (redirect P S net R zlib start urls o w)
    unfolding redirect
    redirect-IsPrinting none w h = tt
    redirect-IsPrinting (some location) w h = follow-IsPrinting (urls.parse_uri location) w h

    on_header-IsPrinting :
        (ec : E.Code) (w : Client P S net)
        → w.output ≡ []
        → consumed w.parser ≡ []
        → IsPrinting P S net R zlib start L (on_header P S net R zlib start urls ec w)
    unfolding on_header respond
    on_header-IsPrinting ec w h c = ground (
      arith,
      redirect-IsPrinting (R.get w.parser).location w h,
      read_body-IsPrinting P S net R zlib start L w (c ∙ sym h),
    )

    after_write-IsPrinting :
        (a : Action E.Code WriteSome) (s : Session E S) (w : Client P S net)
        → w.output ≡ []
        → IsPrinting P S net R zlib start L (after_write P S net R zlib start urls a s w)
    unfolding after_write
    after_write-IsPrinting (complete ec n) s w h = on_write-IsPrinting P S net R zlib start L ec w h
    after_write-IsPrinting (post ec n) s w h = h
    after_write-IsPrinting (initiate r) s w h = h
    after_write-IsPrinting ended s w h = h
    after_write-IsPrinting assert_failed s w h = h

    after_header-IsPrinting :
        (a : Action E.Code ReadSome) (t : Turn E P) (w : Client P S net)
        → w.output ≡ []
        → consumed t.parser ≡ []
        → IsPrinting P S net R zlib start L (after_header P S net R zlib start urls a t w)
    unfolding after_header
    after_header-IsPrinting (complete ec n) t w h c = on_header-IsPrinting ec _ h c
    after_header-IsPrinting (post ec n) t w h c = (h, c)
    after_header-IsPrinting (initiate r) t w h c = (h, c)
    after_header-IsPrinting ended t w h c = (h, c)
    after_header-IsPrinting assert_failed t w h c = (h, c)

    after_body-IsPrinting :
        (a : Action E.Code ReadSome) (t : Turn E P) (w : Client P S net)
        → consumed t.parser ≡ w.output
        → IsPrinting P S net R zlib start L (after_body P S net R zlib start urls a t w)
    unfolding after_body
    after_body-IsPrinting (complete ec n) t w h =
        on_read_some-IsPrinting P S net R zlib start L ec _ h
    after_body-IsPrinting (post ec n) t w h = h
    after_body-IsPrinting (initiate r) t w h = h
    after_body-IsPrinting ended t w h = h
    after_body-IsPrinting assert_failed t w h = h

    dispatch-IsPrinting :
        (p : Pending P S net) (e : ClientEvent E.Code net.Results) (w : Client P S net)
        → Prints P S net R zlib start L p w
        → IsPrinting P S net R zlib start L w
        → IsPrinting P S net R zlib start L (dispatch P S net R zlib start urls p e w)
    unfolding dispatch
    dispatch-IsPrinting (resolving v) (resolved ec results) w h i =
        on_resolved-IsPrinting P S net R zlib start L ec results v w h
    dispatch-IsPrinting (connecting v) (connected ec) w h i =
        on_connected-IsPrinting P S net R zlib start L ec v w h
    dispatch-IsPrinting (handshaking v) (handshaken ec) w h i =
        on_handshaken-IsPrinting P S net R zlib start L ec v w h
    dispatch-IsPrinting (leaving v) (shut_down ec) w h i = h
    dispatch-IsPrinting (writing t) (write_event e) w h i = after_write-IsPrinting _ _ w h
    dispatch-IsPrinting (reading_header t) (read_event e) w h i =
        after_header-IsPrinting _ _ w h.0 (deliver_header-keeps E P _ (L.consumed_kept []) t e h.1)
    dispatch-IsPrinting (reading_body t) (read_event e) w h i =
        after_body-IsPrinting _ _ w (deliver_body-keeps E P _ (L.consumed_kept w.output) true t e h)
    dispatch-IsPrinting closing (shut_down ec) w h i =
        on_closed-IsPrinting P S net R zlib start L ec w h
    dispatch-IsPrinting p e w h i = i

    on_event-IsPrinting :
        (e : ClientEvent E.Code net.Results) (w : Client P S net)
        → IsPrinting P S net R zlib start L w
        → IsPrinting P S net R zlib start L (on_event P S net R zlib start urls e w)
    unfolding on_event
    on_event-IsPrinting e w i = dispatch-IsPrinting w.pending e w i i

    -- Whatever completes, and over any redirects, when `request` returns its parser is complete and
    -- has nothing of the body left to pull, and what was printed is what was consumed of the body
    -- of the last response.
    pub request-HasPrinted :
        (v : Visit) (p : P.State) (es : List (ClientEvent E.Code net.Results))
        → (run P S net R zlib start urls (request P S net R zlib start urls v p) es).pending
          ≡ returned
        → HasPrinted P S net R zlib start L
            (run P S net R zlib start urls (request P S net R zlib start urls v p) es)
    unfolding request
    request-HasPrinted v p es h = rw h at (
        drive-Inv (on_event P S net R zlib start urls) (IsPrinting P S net R zlib start L)
          on_event-IsPrinting (request P S net R zlib start urls v p) es refl)
