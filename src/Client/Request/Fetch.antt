-- ===== src/Client/Request/Fetch.antt =====
-- How the client takes in a body: what `pull_body` gives is printed, and `async_read_some` waited
-- for, until the parser has all of it.
use mathlib.Core.List.{map-append, append_assoc, append-nil}
use http_io.Common.{
  ℕ, ◌≡◌, sym, ap, ◌∙◌, Bool, true, false, ◌&&◌, not, List, [], ◌∷◌, ◌++◌, map, length,
}
use http_io.System.{ErrorCodes}
use http_io.Asio.Machine.{Completes, drive, drive-first, drive-ends}
use http_io.Parser.{Parser}
use http_io.Serializer.{Serializer, Buffers, flatten}
use http_io.Read
use http_io.Read.{Turn}
use http_io.Read.Body.{started, read_body_op, async_read_some}
use http_io.Client.Libraries.{Urls, ResponseParser, Network}
use http_io.Client.Body.{consume_all, drained}
use http_io.Client.Stream.{shutdown_call}
use http_io.Client.Visit.{RequestCall}
use http_io.Client.Request.{
  shutdown, read_event, reading_body, closing, Client, print_body, start_shutdown, start_read,
  read_body, on_read_some, after_body, on_event,
}
use http_io.Client.Request.Stages.{body-IsStage}

module _ {E : ErrorCodes} (P : Parser E) (R : ResponseParser P) where
  -- An `async_read_some` ends without an error, or with one that the loop over the body ignores.
  abbrev pub Proceeds : Turn E P → List (Read.Event E.Code) → Read.Event E.Code → Type 0
  Proceeds t es e =
      Completes (λ c. (E.failed c && not (E.is_need_more_input c)) ≡ false)
        (λ ds. (Read.run E P (read_body_op E P true) t ds).action) es e

  -- From the first parser, with the completions of some reads, a body is taken in that leaves the
  -- second parser; the last argument is the body.
  pub data Fetches : P.State → List (Read.Event E.Code) → P.State → List ℕ → Type 0 where
    whole :
        (p : P.State)
        → P.is_complete (drained P R p) ≡ true
        → Fetches p [] (drained P R p) (flatten (R.pull_body p))
    more :
        (p q : P.State) (t : Turn E P) (es rest : List (Read.Event E.Code))
        → (e : Read.Event E.Code) (body : List ℕ) → P.is_complete (drained P R p) ≡ false
        → async_read_some E P (drained P R p) ≡ started t
        → Proceeds t es e
        → Fetches (Read.run E P (read_body_op E P true) t (es ++ e ∷ [])).parser rest q body
        → Fetches p ((es ++ e ∷ []) ++ rest) q (flatten (R.pull_body p) ++ body)

module _ {E : ErrorCodes} (P : Parser E) (S : Serializer E) (net : Network E) (R : ResponseParser P)
    (zlib : Bool) (start : List RequestCall → S.State) where
  pub print_body-prints :
      (bs : Buffers) (w : Client P S net)
      → print_body P S net R zlib start bs w
        ≡ record w { output = w.output ++ flatten bs; parser = consume_all P R bs w.parser }
  unfolding print_body
  print_body-prints [] w = ap (λ o. record w { output = o }) (sym (append-nil w.output))
  print_body-prints (b ∷ bs) w =
      print_body-prints bs
        (record w { output = w.output ++ b; parser = R.consume_body (length b) w.parser })
      ∙ ap (λ o. record w { output = o; parser = consume_all P R (b ∷ bs) w.parser })
          (append_assoc w.output b (flatten bs))

module _ {E : ErrorCodes} (P : Parser E) (S : Serializer E) (net : Network E) (R : ResponseParser P)
    (zlib : Bool) (start : List RequestCall → S.State) (urls : Urls) where
  -- The client, with a body printed and its stream being shut down.
  abbrev pub closed_with : P.State → List ℕ → Client P S net → Client P S net
  closed_with q body w = record w {
    parser = q;
    output = w.output ++ body;
    calls = w.calls ++ shutdown (shutdown_call w.secure) ∷ [];
    pending = closing;
  }

  -- What the client is while it waits for more of a body.
  abbrev reading : P.State → Turn E P → Client P S net → Client P S net
  reading p t w = record w {
    parser = drained P R p;
    output = w.output ++ flatten (R.pull_body p);
    pending = reading_body t;
  }

  read_body-reads :
      (p : P.State) (t : Turn E P) (w : Client P S net)
      → P.is_complete (drained P R p) ≡ false
      → async_read_some E P (drained P R p) ≡ started t
      → read_body P S net R zlib start (record w { parser = p }) ≡ reading p t w
  unfolding read_body start_read
  read_body-reads p t w on start_t = rw (
    print_body-prints P S net R zlib start (R.pull_body p) (record w { parser = p }),
    on,
    start_t,
    start_read,
  )

  -- The client takes in a body, and shuts its stream down.
  pub read_body-fetches :
      (p q : P.State) (es : List (Read.Event E.Code)) (body : List ℕ) (w : Client P S net)
      → Fetches P R p es q body
      → drive
          (on_event P S net R zlib start urls)
          (read_body P S net R zlib start (record w { parser = p }))
          (map read_event es)
        ≡ closed_with q body w
  unfolding read_body start_shutdown on_read_some after_body drive
  read_body-fetches _ _ _ _ w (whole p done) =
      rw (print_body-prints P S net R zlib start (R.pull_body p) (record w { parser = p }), done)
  read_body-fetches _ q _ _ w (more p q' t es rest e body on start_t (going, (c, n, ends, ok)) f) =
      let T = on_event P S net R zlib start urls in
      let printed = flatten (R.pull_body p) in
      let before = Read.run E P (read_body_op E P true) t es in
      let after = Read.run E P (read_body_op E P true) t (es ++ e ∷ []) in
      let w1 : Client P S net = record (reading p before w) { parser = after.parser } in
      let ran : drive T (reading p t w) (map read_event (es ++ e ∷ []))
          ≡ read_body P S net R zlib start w1 =
        drive-ends T (body-IsStage P S net R zlib start urls) t es e (reading p t w) c n going ends
        ∙ rw ok in
      ap (λ l. drive T (read_body P S net R zlib start (record w { parser = p })) l)
        (map-append read_event (es ++ e ∷ []) rest)
      ∙ drive-first T _ _ (map read_event (es ++ e ∷ [])) (map read_event rest) (
          ap (λ v. drive T v (map read_event (es ++ e ∷ []))) (read_body-reads p t w on start_t)
          ∙ ran)
      ∙ read_body-fetches after.parser q rest body w1 f
      ∙ ap (λ o. record (closed_with q body w) { output = o }) (append_assoc w.output printed body)
