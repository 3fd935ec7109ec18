-- ===== src/Client/Request/Returns.antt =====
-- A visit of the client that goes well: to the end of the body, or to the next visit.
use http_io.Common.{ℕ, ◌≡◌, ◌∙◌, Bool, true, false, ◌&&◌, not, List, [], ◌∷◌, ◌++◌, map, some}
use http_io.System.{ErrorCodes}
use http_io.Text.{Text}
use http_io.Asio.Machine.{drive, drive-first}
use http_io.Parser.{Parser}
use http_io.Serializer.{Serializer}
use http_io.Read
use http_io.Write
use http_io.Client.Libraries.{Urls, ResponseParser, Network}
use http_io.Client.Stream.{shutdown_call}
use http_io.Client.Visit.{Visit, visit_of, uses_tls, is_redirect, RequestCall}
use http_io.Client.Request.{
  resolve, shutdown, ClientEvent, resolved, connected, shut_down, read_event, write_event,
  resolving, returned, Client, add_call, start_connect, start_shutdown, follow, redirect, respond,
  on_closed, dispatch, on_event,
}
use http_io.Client.Request.Fetch.{Fetches, closed_with, read_body-fetches}
use http_io.Client.Request.Asks.{shakes, asks, asked}

module _ {E : ErrorCodes} (P : Parser E) (S : Serializer E) (net : Network E) (R : ResponseParser P)
    (zlib : Bool) (start : List RequestCall → S.State) (urls : Urls) where
  -- The events of a visit from its resolved name to the header of its response, and others.
  abbrev pub visited :
      Visit
      → net.Results
      → (c d k : E.Code) → List (Write.Event E.Code)
      → List (Read.Event E.Code)
      → List (ClientEvent E.Code net.Results)
      → List (ClientEvent E.Code net.Results)
  visited v results c d k ws hs es =
      (resolved c results ∷ connected d ∷ shakes P S net R zlib start urls v k)
      ++ (map write_event ws ++ (map read_event hs ++ es))

  -- Of a client that waits for the name of a visit: what it is when the response was printed.
  abbrev pub fetched : Visit → net.Results → P.State → List ℕ → Client P S net → Client P S net
  fetched v results q body w = record w {
    parser = q;
    secure = uses_tls v;
    output = w.output ++ body;
    calls =
        w.calls
        ++ asks P S net R zlib start urls v results
        ++ shutdown (shutdown_call (uses_tls v)) ∷ [];
    pending = returned;
  }

  -- And what it is when the response leads to another visit.
  abbrev pub followed : Visit → net.Results → Visit → P.State → Client P S net → Client P S net
  followed v results next q w = record w {
    parser = q;
    secure = uses_tls v;
    calls =
        w.calls
        ++ asks P S net R zlib start urls v results
        ++ shutdown (shutdown_call (uses_tls v)) ∷ []
        ++ resolve next.host next.service ∷ [];
    pending = resolving next;
  }

  abbrev turn : ClientEvent E.Code net.Results → Client P S net → Client P S net
  turn = on_event P S net R zlib start urls

  drive-closed :
      (c : E.Code) (q : P.State) (body : List ℕ) (w : Client P S net)
      → (E.failed c && not (net.is_stream_truncated c)) ≡ false
      → drive turn (closed_with P S net R zlib start urls q body w) (shut_down c ∷ [])
        ≡ record (closed_with P S net R zlib start urls q body w) { pending = returned }
  unfolding drive on_event dispatch on_closed
  drive-closed c q body w ok = rw ok

  pub respond-fetches :
      (v : Visit) (results : net.Results) (hs bs : List (Read.Event E.Code)) (q q' : P.State)
      → (body : List ℕ) (c : E.Code) (w : Client P S net) → is_redirect (R.get q).status ≡ false
      → Fetches P R q bs q' body
      → (E.failed c && not (net.is_stream_truncated c)) ≡ false
      → drive turn
          (respond P S net R zlib start urls
            (R.get q)
            (asked P S net R zlib start urls v results hs q w))
          (map read_event bs ++ shut_down c ∷ [])
        ≡ fetched v results q' body w
  unfolding respond
  respond-fetches v results hs bs q q' body c w stays fetches ok =
      let w1 = asked P S net R zlib start urls v results hs q w in
      drive-first turn _ _ (map read_event bs) (shut_down c ∷ [])
        (rw stays (read_body-fetches P S net R zlib start urls q q' bs body w1 fetches))
      ∙ drive-closed c q' body w1 ok

  pub respond-follows :
      (v : Visit) (results : net.Results) (hs : List (Read.Event E.Code)) (q : P.State)
      → (location : Text) (url : urls.Url) (c : E.Code) (w : Client P S net)
      → is_redirect (R.get q).status ≡ true
      → (R.get q).location ≡ some location
      → urls.parse_uri location ≡ some url
      → drive turn
          (respond P S net R zlib start urls
            (R.get q)
            (asked P S net R zlib start urls v results hs q w))
          (shut_down c ∷ [])
        ≡ followed v results (visit_of urls url) q w
  unfolding drive on_event dispatch respond redirect follow start_shutdown start_connect add_call
  respond-follows v results hs q location url c w moved found parsed =
      rw (moved, found, redirect, parsed, follow)
