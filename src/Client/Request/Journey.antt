-- ===== src/Client/Request/Journey.antt =====
-- The client over a chain of visits that go well, from its first to the one that it prints.
use mathlib.Core.List.{append_assoc}
use http_io.Common.{
  ℕ, ◌≡◌, refl, sym, ◌∙◌, subst, Bool, true, false, ◌&&◌, not, List, [], ◌∷◌, ◌++◌, map, some,
}
use http_io.System.{ErrorCodes}
use http_io.Text.{Text}
use http_io.Asio.Machine.{Succeeds, drive, drive-first}
use http_io.Parser.{Parser}
use http_io.Serializer.{Serializer}
use http_io.Read
use http_io.Write
use http_io.Runs.{read_header, write}
use http_io.Client.Libraries.{Urls, ResponseParser, Network}
use http_io.Client.Stream.{shutdown_call}
use http_io.Client.Visit.{Visit, visit_of, uses_tls, is_redirect, get_request, RequestCall}
use http_io.Client.Request.{
  Call, resolve, shutdown, ClientEvent, shut_down, read_event, resolving, returned, Client,
  start_connect, add_call, on_event, run, request,
}
use http_io.Client.Request.Fetch.{Fetches}
use http_io.Client.Request.Asks.{Shakes, asks, drive-asks}
use http_io.Client.Request.Returns.{visited, followed, respond-fetches, respond-follows}

module _ {E : ErrorCodes} (P : Parser E) (S : Serializer E) (net : Network E) (R : ResponseParser P)
    (zlib : Bool) (start : List RequestCall → S.State) (urls : Urls) where
  -- The parser with the header of the response to a visit.
  abbrev pub answered : P.State → List (Read.Event E.Code) → P.State
  answered p hs = (read_header E P (P.start (P.reset p)) hs).parser

  -- The name of a visit is resolved and its server connected to, with TLS where the visit uses it,
  -- and the write of the request and the read of the header succeed.
  abbrev pub Answers :
      Visit
      → P.State
      → (c d k : E.Code) → List (Write.Event E.Code)
      → Write.Event E.Code
      → List (Read.Event E.Code)
      → Read.Event E.Code
      → Type 0
  Answers v p c d k ws u hs h =
      (E.failed c ≡ false)
      × (E.failed d ≡ false)
      × Shakes P S net R zlib start urls v k
      × Succeeds E (λ es. (write E S (start (get_request zlib v)) es).action) ws u
      × Succeeds E (λ es. (read_header E P (P.start (P.reset p)) es).action) hs h

  -- From a visit and a parser, over completions, to a body, with calls on the network: each response
  -- but the last redirects to a URL that parses, and the last is read to its end and its stream shut
  -- down.
  pub data Journey
      : Visit
        → P.State
        → List (ClientEvent E.Code net.Results)
        → List ℕ
        → List (Call net.Results)
        → Type 0 where
    last :
        (v : Visit) (p : P.State) (results : net.Results) (c d k x : E.Code)
        → (ws : List (Write.Event E.Code)) (u : Write.Event E.Code)
        → (hs bs : List (Read.Event E.Code)) (h : Read.Event E.Code) (q : P.State) (body : List ℕ)
        → Answers v p c d k ws u hs h
        → is_redirect (R.get (answered p (hs ++ h ∷ []))).status ≡ false
        → Fetches P R (answered p (hs ++ h ∷ [])) bs q body
        → (E.failed x && not (net.is_stream_truncated x)) ≡ false
        → Journey v p
            (visited P S net R zlib start urls v results c d k
              (ws ++ u ∷ [])
              (hs ++ h ∷ [])
              (map read_event bs ++ shut_down x ∷ []))
            body
            (asks P S net R zlib start urls v results ++ shutdown (shutdown_call (uses_tls v)) ∷ [])
    redirected :
        (v : Visit) (p : P.State) (results : net.Results) (c d k x : E.Code)
        → (ws : List (Write.Event E.Code)) (u : Write.Event E.Code)
        → (hs : List (Read.Event E.Code)) (h : Read.Event E.Code) (location : Text) (url : urls.Url)
        → (es : List (ClientEvent E.Code net.Results)) (body : List ℕ)
        → (calls : List (Call net.Results)) → Answers v p c d k ws u hs h
        → is_redirect (R.get (answered p (hs ++ h ∷ []))).status ≡ true
        → (R.get (answered p (hs ++ h ∷ []))).location ≡ some location
        → urls.parse_uri location ≡ some url
        → Journey (visit_of urls url) (answered p (hs ++ h ∷ [])) es body calls
        → Journey v p
            (visited P S net R zlib start urls v results c d k
              (ws ++ u ∷ [])
              (hs ++ h ∷ [])
              (shut_down x ∷ es))
            body
            (asks P S net R zlib start urls v results
              ++ (shutdown (shutdown_call (uses_tls v))
                  ∷ resolve (visit_of urls url).host (visit_of urls url).service
                  ∷ calls))

  -- The client has returned, with a body printed behind what was printed, and calls made behind
  -- others.
  abbrev pub HasReturned :
      List ℕ → List (Call net.Results) → Client P S net → Client P S net → Type 0
  HasReturned body calls w0 w =
      (w.pending ≡ returned) × (w.output ≡ w0.output ++ body) × (w.calls ≡ w0.calls ++ calls)

  abbrev turn : ClientEvent E.Code net.Results → Client P S net → Client P S net
  turn = on_event P S net R zlib start urls

  append-calls :
      (cs more : List (Call net.Results)) (a b : Call net.Results) (ds : List (Call net.Results))
      → (cs ++ more ++ a ∷ [] ++ b ∷ []) ++ ds ≡ cs ++ (more ++ (a ∷ b ∷ ds))
  append-calls cs more a b ds =
      append_assoc (cs ++ more ++ a ∷ []) (b ∷ []) ds
      ∙ append_assoc (cs ++ more) (a ∷ []) (b ∷ ds)
      ∙ append_assoc cs more (a ∷ b ∷ ds)

  drive-HasReturned :
      (v : Visit) (p : P.State) (es : List (ClientEvent E.Code net.Results)) (body : List ℕ)
      → (calls : List (Call net.Results)) (w : Client P S net) → Journey v p es body calls
      → HasReturned body calls w (drive turn (record w { parser = p; pending = resolving v }) es)
  drive-HasReturned _ _ _ _ _ w
        (last v p results c d k x ws u hs bs h q body
          (ok_c, ok_d, tls, sends, header)
          stays
          f
          ok_x) =
      let w1 : Client P S net = record w { parser = p } in
      let left =
        drive-asks P S net R zlib start urls v results c d k ws u hs h w1
          (map read_event bs ++ shut_down x ∷ []) ok_c ok_d tls sends header
        ∙ respond-fetches P S net R zlib start urls v results hs bs (answered p (hs ++ h ∷ [])) q
            body x w1 stays f ok_x in
      subst (HasReturned body _ w) (sym left)
        (refl, refl, append_assoc w.calls (asks P S net R zlib start urls v results) _)
  drive-HasReturned _ _ _ _ _ w
        (redirected v p results c d k x ws u hs h location url es body calls
          (ok_c, ok_d, tls, sends, header)
          moved
          found
          parsed
          j) =
      let w1 : Client P S net = record w { parser = p } in
      let q = answered p (hs ++ h ∷ []) in
      let next = visit_of urls url in
      let w2 = followed P S net R zlib start urls v results next q w1 in
      let left =
        drive-asks P S net R zlib start urls v results c d k ws u hs h w1 (shut_down x ∷ es) ok_c
          ok_d tls sends header
        ∙ drive-first turn _ _ (shut_down x ∷ []) es (
            respond-follows P S net R zlib start urls v results hs q location url x w1 moved found
              parsed) in
      let (back, printed, called) = drive-HasReturned next q es body calls w2 j in
      subst (HasReturned body _ w) (sym left) (
        back,
        printed,
        called ∙ append-calls w.calls (asks P S net R zlib start urls v results) _ _ calls,
      )

  -- When every visit goes well, that is when each name is resolved, each server connected to, with
  -- TLS where the visit uses it, each request written and each header read without an error, when
  -- each response but the last redirects to a URL that parses, and when the last body is read to its
  -- end and its stream shut down, then `request` returns, it has printed that body, and it has called
  -- for each visit the resolver, the connection, the TLS handshake if any, the write of the request
  -- and the shutdown, in this order.
  pub request-HasReturned :
      (v : Visit) (p : P.State) (es : List (ClientEvent E.Code net.Results)) (body : List ℕ)
      → (calls : List (Call net.Results)) → Journey v p es body calls
      → let w = run P S net R zlib start urls (request P S net R zlib start urls v p) es in
        (w.pending ≡ returned) × (w.output ≡ body) × (w.calls ≡ resolve v.host v.service ∷ calls)
  unfolding request start_connect add_call
  request-HasReturned v p es body calls j =
      drive-HasReturned v p es body calls (request P S net R zlib start urls v p) j
