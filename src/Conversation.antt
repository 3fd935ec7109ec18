-- ===== src/Conversation.antt =====
-- The client of example/client/flex_await asks a worker of example/server: the two machines, with
-- nothing between them but the bytes that one writes and the other reads.
use mathlib.Core.List.{append-nil}
use http_io.Common.{ℕ, ◌≡◌, sym, ap, ◌∙◌, Bool, true, false, ◌&&◌, not, List, [], ◌∷◌, ◌++◌, map}
use http_io.System.{ErrorCodes}
use http_io.Asio.Machine.{drive}
use http_io.Parser.{Parser, IsLawful, IsRecording}
use http_io.Serializer
use http_io.Serializer.{Serializer}
use http_io.Read
use http_io.Read.Header.Input.{read_header-hears}
use http_io.Read.Header.Keeps.{run_header-keeps}
use http_io.Write
use http_io.Write.All.{async_write}
use http_io.Write.All.Laws.{AllWithin}
use http_io.Runs.{read_header, heard_header, write, write-whole}
use http_io.Exchange.{IsMessage, message_needed}
use http_io.Framing.{IsPrefixFree, IsStarting}
use http_io.Server.Request.{Libraries}
use http_io.Server.Worker.{Messages, Setup, Worker, accepted, accepting, on_event}
use http_io.Server.Worker.Connection.{Serving, events, Goes, heard_round, sending}
use http_io.Server.Worker.Decoding.{IsCoding}
use http_io.Server.Worker.Replies.{reply, HasServed, serve-HasServed}
use http_io.Client.Libraries.{
  Urls, ResponseParser, IsLawful as IsResponseParser, IsDecoding, Network,
}
use http_io.Client.Visit.{Visit, is_redirect, get_request, RequestCall}
use http_io.Client.Request.{read_event, shut_down, returned, run, request}
use http_io.Client.Request.Fetch.{Fetches}
use http_io.Client.Request.Returns.{visited}
use http_io.Client.Request.Journey.{Answers, last, request-HasReturned}
use http_io.Client.Request.Hears.{heard_body, Fetches-is_complete, Fetches-hears, Fetches-consumes}

module _ {E : ErrorCodes} (P : Parser E) (R : ResponseParser P) (is_whole : List ℕ → Bool)
    (I : IsRecording P is_whole) (L : IsResponseParser P R) (D : IsDecoding P R is_whole I L) where
  -- The parser with the header of a response, read by a new request.
  abbrev headed : P.State → List (Read.Event E.Code) → P.State
  headed p hs = (read_header E P (P.start (P.reset p)) hs).parser

  -- The bytes that the client reads of a response.
  abbrev pub heard_response :
      (p : P.State) (hs : List (Read.Event E.Code)) {q : P.State}
      → {bs : List (Read.Event E.Code)} {body : List ℕ} → Fetches P R (headed p hs) bs q body
      → List ℕ
  heard_response p hs f = heard_header E P (P.start (P.reset p)) hs ++ heard_body P R f

  response_input :
      (p : P.State) (hs : List (Read.Event E.Code)) {q : P.State}
      → {bs : List (Read.Event E.Code)} {body : List ℕ} → (f : Fetches P R (headed p hs) bs q body)
      → I.input q ≡ heard_response p hs f
  response_input p hs f =
      Fetches-hears P R is_whole I D.input-consume_body f
      ∙ ap (λ l. l ++ heard_body P R f)
          (read_header-hears E P is_whole I (P.start (P.reset p)) hs
            ∙ ap (λ l. l ++ heard_header E P (P.start (P.reset p)) hs) (D.input-start-reset p))

  -- A response that is read to its end, out of a stream that starts with one message, is that
  -- message, and its body is what was printed.
  response_body :
      (p : P.State) (hs : List (Read.Event E.Code)) {q : P.State}
      → {bs : List (Read.Event E.Code)} {body : List ℕ} → (f : Fetches P R (headed p hs) bs q body)
      → (message later : List ℕ) → IsMessage is_whole message
      → heard_response p hs f ++ later ≡ message
      → (body ≡ D.body_of message) × (later ≡ [])
  response_body p hs {q} {bs} {body} f message later minimal stream =
      let done = Fetches-is_complete P R f in
      let (m, rest, input, whole) = I.whole_of_complete q done in
      let (all, over) =
        message_needed is_whole message m rest later minimal whole
          (ap (λ l. l ++ later) (sym input ∙ response_input p hs f) ∙ stream) in
      let received : I.input q ≡ message = input ∙ all in
      let (none_left, consumes) = Fetches-consumes P R L f in
      let empty : L.consumed (headed p hs) ≡ [] =
        run_header-keeps E P (λ r. L.consumed r ≡ []) (L.consumed_kept []) (P.start (P.reset p)) hs
          (L.consumed-start (P.reset p)) in
      (
        sym (consumes ∙ ap (λ l. l ++ body) empty)
            ∙ sym (append-nil (L.consumed q))
            ∙ ap (λ l. L.consumed q ++ l) (sym none_left)
            ∙ D.body_lem q done (rw received minimal.0)
            ∙ ap D.body_of received,
        over,
      )

-- A worker that serves one request of a connection, and a client that makes one.
module _ {E : ErrorCodes} (P : Parser E) (S : Serializer E) (lib : Libraries E)
    (msgs : Messages P S) (setup : Setup) (b : Bool) (is_request : List ℕ → Bool)
    (free : IsPrefixFree is_request) (lawful : IsLawful E P) (I : IsRecording P is_request)
    (starts : IsStarting P is_request I) (L : Serializer.IsLawful E S)
    (C : IsCoding P S is_request I L msgs) (Q : Parser E) (T : Serializer E) (net : Network E)
    (R : ResponseParser Q) (zlib : Bool) (start : List RequestCall → T.State) (urls : Urls)
    (is_response : List ℕ → Bool) (J : IsRecording Q is_response) (K : IsResponseParser Q R)
    (D : IsDecoding Q R is_response J K) (M : Serializer.IsLawful E T) where
  -- The response to a request, in bytes.
  abbrev pub response_to : List ℕ → List ℕ
  response_to m = C.encode (reply P S lib msgs setup b is_request free lawful I starts L C m)

  -- With lawful parsers and serializers on both sides, and streams that take no more than they are
  -- offered: when the client and a worker that waits for a connection, with a parser that has no
  -- input, go through one visit and one round, each operation succeeding, and each has read, in
  -- whatever pieces, a first part of what the other wrote, then the client returns and has printed
  -- the body of the response that is due to its own request, of which nothing is unread, and the
  -- worker holds that response, with no part of the request unread. The request is one whole
  -- message, and so is the response, which does not redirect; no proper beginning of either is one.
  pub request-gets_reply :
      (v : Visit) (p : Q.State) (results : net.Results) (a c d k x : E.Code)
      → (ws : List (Write.Event E.Code)) (u : Write.Event E.Code)
      → (hs bs : List (Read.Event E.Code)) (h : Read.Event E.Code) (q : Q.State) (body : List ℕ)
      → (w : Worker P S) (r : Serving E.Code) (unread_request unread_response : List ℕ)
      → Answers Q T net R zlib start urls v p c d k ws u hs h
      → AllWithin E T (async_write E T (start (get_request zlib v))) (ws ++ u ∷ [])
      → is_redirect (R.get (headed Q R is_response J K D p (hs ++ h ∷ []))).status ≡ false
      → (f : Fetches Q R (headed Q R is_response J K D p (hs ++ h ∷ [])) bs q body)
      → (E.failed x && not (net.is_stream_truncated x)) ≡ false
      → r.message ≡ M.remaining (start (get_request zlib v))
      → is_request r.message ≡ true
      → w.pending ≡ accepting
      → E.failed a ≡ false
      → Goes P S lib msgs setup b w.parser w.serializer r
      → I.input (P.start w.parser) ≡ []
      → heard_round P S lib msgs setup b w.parser r ++ unread_request
        ≡ (write E T (start (get_request zlib v)) (ws ++ u ∷ [])).wire
      → IsMessage is_response (response_to r.message)
      → heard_response Q R is_response J K D p (hs ++ h ∷ []) f ++ unread_response
        ≡ (sending P S lib msgs setup b w.parser w.serializer r).wire
      → let after = run Q T net R zlib start urls (request Q T net R zlib start urls v p) (
          visited Q T net R zlib start urls v results c d k
            (ws ++ u ∷ [])
            (hs ++ h ∷ [])
            (map read_event bs ++ shut_down x ∷ [])) in
        (after.pending ≡ returned)
        × (after.output ≡ D.body_of (response_to r.message))
        × (unread_response ≡ [])
        × HasServed P S lib msgs setup b is_request free lawful I starts L C r [] unread_request []
            w.calls
            (drive (on_event P S lib msgs setup b) w (accepted a ∷ events (r ∷ [])))
  request-gets_reply v p results a c d k x ws u hs bs h q body w r unread_request unread_response
        answers within stays f ok_x asked whole at ok_a goes fresh to_server minimal to_client =
      let (ok_c, ok_d, tls, sends, header) = answers in
      let (wire, served) =
        serve-HasServed P S lib msgs setup b is_request free lawful I starts L C a r [] w
          unread_request [] at ok_a (whole, tt) (goes, tt, tt)
          (ap (λ l. l ++ (heard_round P S lib msgs setup b w.parser r ++ [] ++ unread_request))
              fresh
            ∙ ap (λ l. l ++ unread_request)
                (append-nil (heard_round P S lib msgs setup b w.parser r))
            ∙ to_server
            ∙ write-whole E T M (start (get_request zlib v)) ws u sends within
            ∙ sym asked
            ∙ sym (append-nil (r.message ++ []) ∙ append-nil r.message)) in
      let (same, over) =
        response_body Q R is_response J K D p (hs ++ h ∷ []) f (response_to r.message)
          unread_response minimal (to_client ∙ sym (append-nil _) ∙ wire ∙ append-nil _) in
      let (back, printed, called) =
        request-HasReturned Q T net R zlib start urls v p _ body _
          (last v p results c d k x ws u hs bs h q body answers stays f ok_x) in
      (back, printed ∙ same, over, served)
