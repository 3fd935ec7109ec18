-- ===== src/Server/Worker/Replies.antt =====
-- What a worker sends over a connection, as a function of what it was sent.
use mathlib.Core.List.{append_assoc}
use http_io.Common.{ℕ, ◌≡◌, sym, ap, subst, ◌∙◌, Bool, false, List, [], ◌∷◌, ◌++◌, if◌then◌else◌}
use http_io.System.{ErrorCodes}
use http_io.Asio.Machine.{drive}
use http_io.Parser.{Parser, IsLawful, IsRecording}
use http_io.Serializer
use http_io.Serializer.{Serializer}
use http_io.Read.Header.{async_read_header}
use http_io.Runs.{write-whole}
use http_io.Framing.{IsPrefixFree, IsStarting}
use http_io.Server.Request.{Libraries, Effect}
use http_io.Server.Worker.{
  SocketCall, close, Messages, Setup, accepted, accepting, reading_header, Worker, do_read, answer,
  on_event,
}
use http_io.Server.Worker.Round.{next_wait, serve-accepted}
use http_io.Server.Worker.Decoding.{IsCoding, takes_message}
use http_io.Server.Worker.Connection.{
  Serving, messages, AllWhole, events, due, sending, Goes, AllGo, heard_round, heard_all, sent,
  written, serve_one,
}

abbrev pub last_message : {C : Type 0} → Serving C → List (Serving C) → List ℕ
last_message r [] = r.message
last_message r (r' ∷ rs) = last_message r' rs

module _ {E : ErrorCodes} (P : Parser E) (S : Serializer E) (lib : Libraries E)
    (msgs : Messages P S) (setup : Setup) (b : Bool) (is_whole : List ℕ → Bool)
    (free : IsPrefixFree is_whole) (lawful : IsLawful E P) (I : IsRecording P is_whole)
    (starts : IsStarting P is_whole I) (L : Serializer.IsLawful E S)
    (C : IsCoding P S is_whole I L msgs) where
  -- The response that is due to a message.
  abbrev pub reply : List ℕ → List Effect
  reply m = answer P S lib msgs setup b (C.decode m)

  abbrev pub replies : List (Serving E.Code) → List ℕ
  replies [] = []
  replies (r ∷ rs) = C.encode (reply r.message) ++ replies rs

  -- A worker that holds a response: it has closed the connection unless that keeps it, and waits
  -- for the next request behind the parser's state, or for the next connection.
  abbrev pub IsWaiting : List Effect → List SocketCall → P.State → Worker P S → Type 0
  IsWaiting es before q v =
      (v.response ≡ es)
      × (v.pending ≡ (
          if msgs.keep_alive es
          then reading_header (async_read_header E P (P.start q))
          else accepting))
      × (v.calls ≡ (if msgs.keep_alive es then before else before ++ close ∷ []))

  -- What is left behind some messages: the last reply, and what was read of the bytes behind them.
  abbrev pub HasServed :
      Serving E.Code
      → List (Serving E.Code)
      → (later future : List ℕ) → List SocketCall
      → Worker P S
      → Type 0
  HasServed r rs later future before v =
      (q : P.State) × (I.input (P.start q) ++ later ≡ future)
      × IsWaiting (reply (last_message r rs)) before q v

  -- One request served: what was sent, and the worker, in terms of the message.
  sending-wire :
      (p : P.State) (s : S.State) (r : Serving E.Code)
      → Goes P S lib msgs setup b p s r
      → due P S lib msgs setup b p r ≡ reply r.message
      → (sending P S lib msgs setup b p s r).wire ≡ C.encode (reply r.message)
  sending-wire p s r (_, _, _, sends, within) same =
      write-whole E S L (msgs.start (due P S lib msgs setup b p r) s) r.writes r.writes_end sends
        within
      ∙ C.remaining-start (due P S lib msgs setup b p r) s
      ∙ ap C.encode same

  -- The stream of a connection, with the first message taken apart.
  regroup :
      (input heard_r heard_rs later m ms future : List ℕ)
      → input ++ ((heard_r ++ heard_rs) ++ later) ≡ (m ++ ms) ++ future
      → input ++ (heard_r ++ (heard_rs ++ later)) ≡ m ++ (ms ++ future)
  regroup input heard_r heard_rs later m ms future h =
      ap (λ l. input ++ l) (sym (append_assoc heard_r heard_rs later))
      ∙ h
      ∙ append_assoc m ms future

  drive-HasServed :
      (r : Serving E.Code) (rs : List (Serving E.Code)) (w : Worker P S) (later future : List ℕ)
      → AllWhole is_whole (r ∷ rs)
      → AllGo P S lib msgs setup b w.parser w.serializer (r ∷ rs)
      → I.input (P.start w.parser)
          ++ (heard_all P S lib msgs setup b w.parser w.serializer (r ∷ rs) ++ later)
        ≡ messages (r ∷ rs) ++ future
      → (sent P S lib msgs setup b w.parser w.serializer (r ∷ rs) ≡ replies (r ∷ rs))
        × HasServed r rs later future w.calls
            (drive (on_event P S lib msgs setup b) (do_read P S w) (events (r ∷ rs)))
  unfolding drive
  drive-HasServed r [] w later future (whole, _) (goes, _, _) stream =
      let w4 = written P S lib msgs setup b r w in
      let (got, tail) =
        takes_message P S lib msgs setup b is_whole free lawful I starts L C w.parser w.serializer r
          later future goes whole
          (regroup _ (heard_round P S lib msgs setup b w.parser r) [] later r.message [] future
            stream) in
      let same : w4.response ≡ reply r.message = ap (answer P S lib msgs setup b) got in
      let v = drive (on_event P S lib msgs setup b) (do_read P S w) (events (r ∷ [])) in
      let left : IsWaiting w4.response w.calls w4.parser v =
        next_wait P S lib msgs setup b w4 v (serve_one P S lib msgs setup b lawful r [] w goes) in
      (
        ap (λ l. l ++ []) (sending-wire w.parser w.serializer r goes same),
        (w4.parser, tail, subst (λ es. IsWaiting es w.calls w4.parser v) same left),
      )
  drive-HasServed r (r' ∷ rs) w later future (whole, wholes) (goes, keeps, go_on) stream =
      let w4 = written P S lib msgs setup b r w in
      let (got, tail) =
        takes_message P S lib msgs setup b is_whole free lawful I starts L C w.parser w.serializer r
          (heard_all P S lib msgs setup b w4.parser w4.serializer (r' ∷ rs) ++ later)
          (messages (r' ∷ rs) ++ future) goes whole
          (regroup _ (heard_round P S lib msgs setup b w.parser r)
            (heard_all P S lib msgs setup b w4.parser w4.serializer (r' ∷ rs)) later r.message
            (messages (r' ∷ rs)) future stream) in
      let same : w4.response ≡ reply r.message = ap (answer P S lib msgs setup b) got in
      let (wire, left) = drive-HasServed r' rs w4 later future wholes go_on tail in
      let T = on_event P S lib msgs setup b in
      let goes_on : drive T (do_read P S w) (events (r ∷ r' ∷ rs))
          ≡ drive T (do_read P S w4) (events (r' ∷ rs)) =
        serve_one P S lib msgs setup b lawful r (r' ∷ rs) w goes ∙ rw keeps in
      (
        ap (λ l. l ++ sent P S lib msgs setup b w4.parser w4.serializer (r' ∷ rs))
              (sending-wire w.parser w.serializer r goes same)
            ∙ ap (λ l. C.encode (reply r.message) ++ l) wire,
        subst (HasServed r' rs later future w.calls) (sym goes_on) left,
      )

  -- A worker that waits for a connection, over a lawful parser and serializer, and a stream that
  -- takes no more than it is offered: after the accept, a stream of whole messages and of what
  -- follows them, of which the worker reads a first part in whatever pieces, also across the
  -- borders of messages, is answered message by message. When the reads and writes succeed, the
  -- answers are defined, and all but the last keep the connection, the bytes sent are the replies
  -- to the messages in their order, and the worker has the last reply, waits for the next request
  -- with all that it read behind the messages, or has closed the connection and waits for the next.
  -- Whole messages are prefix-free, and the parser keeps what is committed to it.
  pub serve-HasServed :
      (c : E.Code) (r : Serving E.Code) (rs : List (Serving E.Code)) (w : Worker P S)
      → (later future : List ℕ) → w.pending ≡ accepting
      → E.failed c ≡ false
      → AllWhole is_whole (r ∷ rs)
      → AllGo P S lib msgs setup b w.parser w.serializer (r ∷ rs)
      → I.input (P.start w.parser)
          ++ (heard_all P S lib msgs setup b w.parser w.serializer (r ∷ rs) ++ later)
        ≡ messages (r ∷ rs) ++ future
      → (sent P S lib msgs setup b w.parser w.serializer (r ∷ rs) ≡ replies (r ∷ rs))
        × HasServed r rs later future w.calls
            (drive (on_event P S lib msgs setup b) w (accepted c ∷ events (r ∷ rs)))
  serve-HasServed c r rs w later future at ok whole goes stream =
      subst
        (λ v.
          (sent P S lib msgs setup b w.parser w.serializer (r ∷ rs) ≡ replies (r ∷ rs))
          × HasServed r rs later future w.calls v)
        (sym (serve-accepted P S lib msgs setup b c w (events (r ∷ rs)) at ok))
        (drive-HasServed r rs w later future whole goes stream)
