-- ===== src/Server/Worker/Round.antt =====
-- A worker answers a request, from a connection to its next wait.
use http_io.Common.{ℕ, ◌≡◌, ◌∙◌, Bool, false, List, [], ◌∷◌, ◌++◌, map, arith, if◌then◌else◌}
use http_io.System.{ErrorCodes}
use http_io.Asio.Machine.{Succeeds, drive, drive-first, drive-ends}
use http_io.Parser.{Parser, IsLawful}
use http_io.Serializer
use http_io.Serializer.{Serializer}
use http_io.Read
use http_io.Read.{Turn, ReadSome}
use http_io.Read.Header.{async_read_header}
use http_io.Read.Header.Laws.{async_read_header-got_header}
use http_io.Read.Body.{read_body_op, begin_body, async_read}
use http_io.Write
use http_io.Write.All.{Session, async_write}
use http_io.Write.All.Laws.{AllWithin}
use http_io.Runs.{read_header, write, write-whole}
use http_io.Server.Request.{Libraries}
use http_io.Server.Request.Laws.{is_undefined}
use http_io.Server.Worker.{
  SocketCall, close, call_socket, Messages, Setup, WorkerEvent, accepted, read_event, write_event,
  accepting, reading_header, reading_body, writing, Worker, do_accept, do_read, on_accept,
  start_read, on_read_header, on_read_body, on_write, send, answer, after_header, after_body,
  after_write, dispatch, on_event,
}
use http_io.Server.Worker.Stages.{header-IsStage, body-IsStage, write-IsStage}

module _ {E : ErrorCodes} (P : Parser E) (S : Serializer E) (lib : Libraries E)
    (msgs : Messages P S) (setup : Setup) (b : Bool) where
  abbrev pub read_body : P.State → List (Read.Event E.Code) → Turn E P
  read_body p es = Read.run E P (read_body_op E P false) (begin_body E P false p) es

  pub serve-header :
      (L : IsLawful E P) (p : P.State) (hs : List (Read.Event E.Code)) (h : Read.Event E.Code)
      (w : Worker P S)
      → Succeeds E (λ es. (read_header E P p es).action) hs h
      → let q = (read_header E P p (hs ++ h ∷ [])).parser in
        drive
          (on_event P S lib msgs setup b)
          (record w { pending = reading_header (async_read_header E P p) })
          (map read_event (hs ++ h ∷ []))
        ≡ record w { parser = q; pending = reading_body (begin_body E P false q) }
  unfolding after_header on_read_header start_read async_read
  serve-header L p hs h w (going, (c, n, done, ok)) =
      let got = async_read_header-got_header E P L p (hs ++ h ∷ []) c n done ok in
      drive-ends (on_event P S lib msgs setup b) (header-IsStage P S lib msgs setup b)
        (async_read_header E P p) hs h w c n going done
      ∙ rw (ok, got)

  pub serve-body :
      (p : P.State) (bs : List (Read.Event E.Code)) (e : Read.Event E.Code) (w : Worker P S)
      → Succeeds E (λ es. (read_body p es).action) bs e
      → is_undefined (answer P S lib msgs setup b (msgs.get (read_body p (bs ++ e ∷ [])).parser))
        ≡ false
      → let q = (read_body p (bs ++ e ∷ [])).parser in
        let effects = answer P S lib msgs setup b (msgs.get q) in
        let sr = msgs.start effects w.serializer in
        drive
          (on_event P S lib msgs setup b)
          (record w { pending = reading_body (begin_body E P false p) })
          (map read_event (bs ++ e ∷ []))
        ≡ record w {
          parser = q;
          response = effects;
          serializer = sr;
          pending = writing (async_write E S sr);
        }
  unfolding after_body on_read_body send
  serve-body p bs e w (going, (c, n, done, ok)) defined =
      drive-ends (on_event P S lib msgs setup b) (body-IsStage P S lib msgs setup b)
        (begin_body E P false p) bs e w c n going done
      ∙ rw (ok, defined)

  pub serve-write :
      (s : S.State) (ws : List (Write.Event E.Code)) (e : Write.Event E.Code) (w : Worker P S)
      → Succeeds E (λ es. (write E S s es).action) ws e
      → let sr = (write E S s (ws ++ e ∷ [])).some_turn.serializer in
        drive
          (on_event P S lib msgs setup b)
          (record w { pending = writing (async_write E S s) })
          (map write_event (ws ++ e ∷ []))
        ≡ (if msgs.keep_alive w.response
            then do_read P S (record w { serializer = sr })
            else do_accept P S (record w { serializer = sr }))
  unfolding after_write on_write do_read do_accept
  serve-write s ws e w (going, (c, n, done, ok)) =
      drive-ends (on_event P S lib msgs setup b) (write-IsStage P S lib msgs setup b)
        (async_write E S s) ws e w c n going done
      ∙ rw ok (ground arith)

  -- What a round leaves: the response due to the request, all of it on the wire, and a worker that
  -- waits for the next request of the connection, or for the next connection with this one closed.
  abbrev pub IsAnswered :
      (remaining : S.State → List ℕ)
      → P.State
      → Session E S
      → S.State
      → List SocketCall
      → Worker P S
      → Type 0
  IsAnswered remaining q s sr before w =
      let effects = answer P S lib msgs setup b (msgs.get q) in
      (w.response ≡ effects)
      × (s.wire ≡ remaining sr)
      × (w.pending ≡ (
          if msgs.keep_alive effects
          then reading_header (async_read_header E P (P.start q))
          else accepting))
      × (w.calls ≡ (if msgs.keep_alive effects then before else before ++ close ∷ []))

  pub next_wait :
      (w v : Worker P S)
      → v ≡ (if msgs.keep_alive w.response then do_read P S w else do_accept P S w)
      → (v.response ≡ w.response)
        × (v.pending ≡ (
            if msgs.keep_alive w.response
            then reading_header (async_read_header E P (P.start w.parser))
            else accepting))
        × (v.calls ≡ (if msgs.keep_alive w.response then w.calls else w.calls ++ close ∷ []))
  unfolding do_read do_accept call_socket
  next_wait w v h = ground arith

  pub serve-accepted :
      (c : E.Code) (w : Worker P S) (es : List (WorkerEvent E.Code))
      → w.pending ≡ accepting
      → E.failed c ≡ false
      → drive (on_event P S lib msgs setup b) w (accepted c ∷ es)
        ≡ drive (on_event P S lib msgs setup b) (do_read P S w) es
  unfolding drive on_event on_accept
  serve-accepted c w es at ok = rw (at, dispatch, ok)

  -- With a lawful parser and serializer and a stream that takes no more than it is offered: when a
  -- connection is accepted, and `async_read_header`, `async_read` and `async_write` each complete
  -- without an error with the last of their events, a worker that waits for a connection sets the
  -- response that is due to the request that it read, unless that is undefined, puts all of it on
  -- the wire, and then waits for the next request if the response keeps the connection, and
  -- otherwise closes it and waits for the next one.
  pub serve-IsAnswered :
      IsLawful E P
      → (L : Serializer.IsLawful E S) (w : Worker P S) (c : E.Code)
      → (hs bs : List (Read.Event E.Code)) (h e : Read.Event E.Code)
      → (ws : List (Write.Event E.Code)) (u : Write.Event E.Code) → w.pending ≡ accepting
      → E.failed c ≡ false
      → let p = P.start w.parser in
        let q = (read_header E P p (hs ++ h ∷ [])).parser in
        let r = (read_body q (bs ++ e ∷ [])).parser in
        let effects = answer P S lib msgs setup b (msgs.get r) in
        let sr = msgs.start effects w.serializer in
        Succeeds E (λ es. (read_header E P p es).action) hs h
        → Succeeds E (λ es. (read_body q es).action) bs e
        → is_undefined effects ≡ false
        → Succeeds E (λ es. (write E S sr es).action) ws u
        → AllWithin E S (async_write E S sr) (ws ++ u ∷ [])
        → IsAnswered L.remaining r (write E S sr (ws ++ u ∷ [])) sr w.calls (
            drive (on_event P S lib msgs setup b) w (
              accepted c
              ∷ (map read_event (hs ++ h ∷ [])
                  ++ (map read_event (bs ++ e ∷ []) ++ map write_event (ws ++ u ∷ [])))))
  unfolding do_read
  serve-IsAnswered lawful L w c hs bs h e ws u at ok header body defined sends within =
      let p = P.start w.parser in
      let w1 : Worker P S = record w {
        parser = p;
        pending = reading_header (async_read_header E P p);
      } in
      let q = (read_header E P p (hs ++ h ∷ [])).parser in
      let w2 : Worker P S = record w {
        parser = q;
        pending = reading_body (begin_body E P false q);
      } in
      let r = (read_body q (bs ++ e ∷ [])).parser in
      let effects = answer P S lib msgs setup b (msgs.get r) in
      let sr = msgs.start effects w.serializer in
      let w3 : Worker P S = record w {
        parser = r;
        response = effects;
        serializer = sr;
        pending = writing (async_write E S sr);
      } in
      let s = write E S sr (ws ++ u ∷ []) in
      let w4 : Worker P S = record w3 { serializer = s.some_turn.serializer } in
      let headers = map read_event (hs ++ h ∷ []) in
      let bodies = map read_event (bs ++ e ∷ []) in
      let writes = map write_event (ws ++ u ∷ []) in
      let left =
        next_wait w4
          (drive (on_event P S lib msgs setup b) w (accepted c ∷ (headers ++ (bodies ++ writes))))
          (serve-accepted c w (headers ++ (bodies ++ writes)) at ok
            ∙ drive-first (on_event P S lib msgs setup b) w1 w2 headers (bodies ++ writes)
                (serve-header lawful p hs h w1 header)
            ∙ drive-first (on_event P S lib msgs setup b) w2 w3 bodies writes
                (serve-body q bs e w2 body defined)
            ∙ serve-write sr ws u w3 sends) in
      (left.0, write-whole E S L sr ws u sends within, left.1, left.2)
