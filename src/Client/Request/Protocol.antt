-- ===== src/Client/Request/Protocol.antt =====
-- An abstract client: the order in which it may call the network, whatever its parser does.
use http_io.Common.{ℕ, ◌≡◌, Bool, true, false, List, [], ◌∷◌, ◌++◌, some}
use http_io.System.{ErrorCodes}
use http_io.Client.Libraries.{Urls, Response, Network}
use http_io.Client.Stream.{shutdown_call}
use http_io.Client.Visit.{Visit, visit_of, uses_tls, is_redirect, get_request}
use http_io.Client.Request.{Call, resolve, connect, set_host_name, handshake, send, shutdown}

-- How far a visit has got; `begun` is before its first call, and `named` behind SSL_set_tlsext_host_name.
pub data Stage : Type 0 where
  begun resolving connecting named handshaking requested : Visit → Stage
  closed : Stage

module _ {E : ErrorCodes} (net : Network E) (zlib : Bool) (urls : Urls) where
  -- A request is sent over TLS exactly if the service is "https", the handshake comes before it, and
  -- a visit is left for the location of a redirect, by the shutdown of its own kind of stream.
  pub data Step : Stage → Call net.Results → Stage → Type 0 where
    resolves : (v : Visit) → Step (begun v) (resolve v.host v.service) (resolving v)
    connects :
        (v : Visit) (results : net.Results)
        → Step (resolving v) (connect (uses_tls v) results) (connecting v)
    names : (v : Visit) → uses_tls v ≡ true → Step (connecting v) (set_host_name v.host) (named v)
    handshakes : (v : Visit) → Step (named v) handshake (handshaking v)
    sends_secure : (v : Visit) → Step (handshaking v) (send (get_request zlib v)) (requested v)
    sends_plain :
        (v : Visit)
        → uses_tls v ≡ false
        → Step (connecting v) (send (get_request zlib v)) (requested v)
    leaves :
        (v : Visit) (resp : Response) (location : List ℕ) (url : urls.Url)
        → is_redirect resp.status ≡ true
        → resp.location ≡ some location
        → urls.parse_uri location ≡ some url
        → Step (requested v) (shutdown (shutdown_call (uses_tls v))) (begun (visit_of urls url))
    closes : (v : Visit) → Step (requested v) (shutdown (shutdown_call (uses_tls v))) closed

  -- Steps from one stage to another, with their calls in order.
  pub data Route (s : Stage) : List (Call net.Results) → Stage → Type 0 where
    here : Route s [] s
    next :
        {cs : List (Call net.Results)} {c : Call net.Results} {t u : Stage}
        → Route s cs t
        → Step t c u
        → Route s (cs ++ c ∷ []) u
