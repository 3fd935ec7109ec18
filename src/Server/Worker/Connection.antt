-- ===== src/Server/Worker/Connection.antt =====
-- A worker serves one request after another over a connection.
use http_io.Common.{ℕ, ◌≡◌, ◌∙◌, Bool, true, false, List, [], ◌∷◌, ◌++◌, map, if◌then◌else◌}
use http_io.System.{ErrorCodes}
use http_io.Asio.Machine.{Succeeds, drive, drive-first}
use http_io.Parser.{Parser, IsLawful}
use http_io.Serializer.{Serializer}
use http_io.Read
use http_io.Read.Input.{heard}
use http_io.Read.Body.{read_body_op, begin_body}
use http_io.Write
use http_io.Write.All.{Session, async_write}
use http_io.Write.All.Laws.{AllWithin}
use http_io.Runs.{read_header, heard_header, write}
use http_io.Server.Request.{Libraries, Effect}
use http_io.Server.Request.Laws.{is_undefined}
use http_io.Server.Worker.{
  Messages, Setup, WorkerEvent, read_event, write_event, Worker, do_read, do_accept, answer,
  on_event,
}
use http_io.Server.Worker.Round.{read_body, serve-header, serve-body, serve-write}

-- A message, and the completions that a worker waits for from the read of its header to the write
-- of the response: those of `async_read_header`, of `async_read` and of `async_write`, the last of
-- each apart.
pub record Serving (C : Type 0) : Type 0 where
  pub message : List ℕ
  pub header : List (Read.Event C)
  pub header_end : Read.Event C
  pub body : List (Read.Event C)
  pub body_end : Read.Event C
  pub writes : List (Write.Event C)
  pub writes_end : Write.Event C

abbrev pub messages : {C : Type 0} → List (Serving C) → List ℕ
messages [] = []
messages (r ∷ rs) = r.message ++ messages rs

abbrev pub AllWhole : {C : Type 0} → (List ℕ → Bool) → List (Serving C) → Type 0
AllWhole is_whole [] = Unit
AllWhole is_whole (r ∷ rs) = (is_whole r.message ≡ true) × AllWhole is_whole rs

abbrev pub events : {C : Type 0} → List (Serving C) → List (WorkerEvent C)
events [] = []
events (r ∷ rs) =
    map read_event (r.header ++ r.header_end ∷ [])
    ++ (map read_event (r.body ++ r.body_end ∷ [])
        ++ (map write_event (r.writes ++ r.writes_end ∷ []) ++ events rs))

-- Of all but the last.
abbrev pub IfMore : {C : Type 0} → List (Serving C) → Type 0 → Type 0
IfMore [] A = Unit
IfMore (r ∷ rs) A = A

module _ {E : ErrorCodes} (P : Parser E) (S : Serializer E) (lib : Libraries E)
    (msgs : Messages P S) (setup : Setup) (b : Bool) where
  abbrev pub got_header : P.State → Serving E.Code → P.State
  got_header p r = (read_header E P (P.start p) (r.header ++ r.header_end ∷ [])).parser

  abbrev pub got_body : P.State → Serving E.Code → P.State
  got_body p r =
      (read_body P S lib msgs setup b (got_header p r) (r.body ++ r.body_end ∷ [])).parser

  abbrev pub due : P.State → Serving E.Code → List Effect
  due p r = answer P S lib msgs setup b (msgs.get (got_body p r))

  abbrev pub sending : P.State → S.State → Serving E.Code → Session E S
  sending p s r = write E S (msgs.start (due p r) s) (r.writes ++ r.writes_end ∷ [])

  -- The three operations succeed, and the answer is defined.
  abbrev pub Goes : P.State → S.State → Serving E.Code → Type 0
  Goes p s r =
      Succeeds E (λ es. (read_header E P (P.start p) es).action) r.header r.header_end
      × Succeeds E (λ es. (read_body P S lib msgs setup b (got_header p r) es).action) r.body
          r.body_end
      × (is_undefined (due p r) ≡ false)
      × Succeeds E (λ es. (write E S (msgs.start (due p r) s) es).action) r.writes r.writes_end
      × AllWithin E S (async_write E S (msgs.start (due p r) s)) (r.writes ++ r.writes_end ∷ [])

  -- So for each request in turn, and every response but the last keeps the connection.
  abbrev pub AllGo : P.State → S.State → List (Serving E.Code) → Type 0
  AllGo p s [] = Unit
  AllGo p s (r ∷ rs) =
      Goes p s r
      × IfMore rs (msgs.keep_alive (due p r) ≡ true)
      × AllGo (got_body p r) (sending p s r).some_turn.serializer rs

  abbrev pub heard_round : P.State → Serving E.Code → List ℕ
  heard_round p r =
      heard_header E P (P.start p) (r.header ++ r.header_end ∷ [])
      ++ heard E P (read_body_op E P false) (begin_body E P false (got_header p r))
          (r.body ++ r.body_end ∷ [])

  -- The bytes that the worker has read from the connection, and those that it has written to it.
  abbrev pub heard_all : P.State → S.State → List (Serving E.Code) → List ℕ
  heard_all p s [] = []
  heard_all p s (r ∷ rs) =
      heard_round p r ++ heard_all (got_body p r) (sending p s r).some_turn.serializer rs

  abbrev pub sent : P.State → S.State → List (Serving E.Code) → List ℕ
  sent p s [] = []
  sent p s (r ∷ rs) =
      (sending p s r).wire ++ sent (got_body p r) (sending p s r).some_turn.serializer rs

  -- The worker behind a write.
  abbrev pub written : Serving E.Code → Worker P S → Worker P S
  written r w = record w {
    parser = got_body w.parser r;
    response = due w.parser r;
    serializer = (sending w.parser w.serializer r).some_turn.serializer;
  }

  abbrev turn : WorkerEvent E.Code → Worker P S → Worker P S
  turn = on_event P S lib msgs setup b

  pub serve_one :
      (lawful : IsLawful E P) (r : Serving E.Code) (rs : List (Serving E.Code)) (w : Worker P S)
      → Goes w.parser w.serializer r
      → drive turn (do_read P S w) (events (r ∷ rs))
        ≡ drive turn
            (if msgs.keep_alive (due w.parser r)
              then do_read P S (written r w)
              else do_accept P S (written r w))
            (events rs)
  unfolding do_read
  serve_one lawful r rs w (header, body, defined, sends, within) =
      let p = P.start w.parser in
      let q = got_header w.parser r in
      let w1 : Worker P S = record w { parser = p } in
      let w2 : Worker P S = record w { parser = q } in
      let w3 : Worker P S = record w {
        parser = got_body w.parser r;
        response = due w.parser r;
        serializer = msgs.start (due w.parser r) w.serializer;
      } in
      drive-first turn _ _ (map read_event (r.header ++ r.header_end ∷ [])) _
        (serve-header P S lib msgs setup b lawful p r.header r.header_end w1 header)
      ∙ drive-first turn _ _ (map read_event (r.body ++ r.body_end ∷ [])) _
          (serve-body P S lib msgs setup b q r.body r.body_end w2 body defined)
      ∙ drive-first turn _ _ (map write_event (r.writes ++ r.writes_end ∷ [])) (events rs) (
          serve-write P S lib msgs setup b (msgs.start (due w.parser r) w.serializer) r.writes
            r.writes_end w3 sends)
