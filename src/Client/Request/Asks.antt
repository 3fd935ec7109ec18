-- ===== src/Client/Request/Asks.antt =====
-- The client from a resolved name to the header of a response.
use mathlib.Core.List.{append_assoc}
use http_io.Common.{
  ◌≡◌, refl, ap, ◌∙◌, Bool, Bool-cases, inl, inr, true, false, List, [], ◌∷◌, ◌++◌, map, none,
  if◌then◌else◌,
}
use http_io.System.{ErrorCodes}
use http_io.Asio.Machine.{Succeeds, drive, drive-first, drive-ends}
use http_io.Parser.{Parser}
use http_io.Serializer.{Serializer}
use http_io.Read
use http_io.Read.Header.{async_read_header}
use http_io.Write
use http_io.Write.All.{async_write}
use http_io.Runs.{read_header, write}
use http_io.Client.Libraries.{Urls, ResponseParser, Network}
use http_io.Client.Visit.{Visit, uses_tls, get_request, RequestCall}
use http_io.Client.Request.{
  Call, connect, set_host_name, handshake, send, ClientEvent, resolved, connected, handshaken,
  read_event, write_event, resolving, reading_header, writing, Client, add_call, on_resolved,
  start_handshake, write_get_request, on_connected, on_handshaken, on_write, on_header, respond,
  after_write, after_header, dispatch, on_event,
}
use http_io.Client.Request.Stages.{header-IsStage, write-IsStage}

append-four :
    {A : Type 0} (xs : List A) (a b c d : A)
    → xs ++ a ∷ [] ++ b ∷ [] ++ c ∷ [] ++ d ∷ [] ≡ xs ++ (a ∷ b ∷ c ∷ d ∷ [])
append-four [] a b c d = refl
append-four (x ∷ xs) a b c d = ap (λ r. x ∷ r) (append-four xs a b c d)

module _ {E : ErrorCodes} (P : Parser E) (S : Serializer E) (net : Network E) (R : ResponseParser P)
    (zlib : Bool) (start : List RequestCall → S.State) (urls : Urls) where
  -- The events and the calls of a TLS handshake, where there is one.
  abbrev pub shakes : Visit → E.Code → List (ClientEvent E.Code net.Results)
  shakes v c = if uses_tls v then handshaken c ∷ [] else []

  abbrev pub asks : Visit → net.Results → List (Call net.Results)
  asks v results =
      connect (uses_tls v) results
      ∷ ((if uses_tls v then set_host_name v.host ∷ handshake ∷ [] else [])
          ++ send (get_request zlib v) ∷ [])

  -- What a TLS visit needs beyond the others.
  abbrev pub Shakes : Visit → E.Code → Type 0
  Shakes v c = uses_tls v ≡ true → (net.set_host_name v.host ≡ none) × (E.failed c ≡ false)

  -- The client while it writes the request of a visit.
  abbrev pub asking : Visit → net.Results → Client P S net → Client P S net
  asking v results w = record w {
    secure = uses_tls v;
    calls = w.calls ++ asks v results;
    pending = writing (async_write E S (start (get_request zlib v)));
  }

  abbrev turn : ClientEvent E.Code net.Results → Client P S net → Client P S net
  turn = on_event P S net R zlib start urls

  drive-connected :
      (v : Visit) (results : net.Results) (c d k : E.Code) (w : Client P S net)
      → E.failed c ≡ false
      → E.failed d ≡ false
      → Shakes v k
      → drive turn
          (record w { pending = resolving v })
          (resolved c results ∷ connected d ∷ shakes v k)
        ≡ asking v results w
  unfolding drive on_event dispatch on_resolved on_connected on_handshaken start_handshake
      write_get_request add_call
  drive-connected v results c d k w ok_c ok_d tls = elim (Bool-cases (uses_tls v)) [
    | inl secure ↦
        rw (secure, ok_c, ok_d, secure, (tls secure).0, (tls secure).1)
          (ap (λ cs. record (asking v results w) { secure = true; calls = cs })
            (append-four w.calls (connect true results) (set_host_name v.host) handshake
              (send (get_request zlib v))))
    | inr plain ↦ rw (plain, ok_c, ok_d, plain, append_assoc)
  ]

  drive-written :
      (s : S.State) (ws : List (Write.Event E.Code)) (u : Write.Event E.Code) (w : Client P S net)
      → Succeeds E (λ es. (write E S s es).action) ws u
      → let q = P.start (P.reset w.parser) in
        drive turn
          (record w { pending = writing (async_write E S s) })
          (map write_event (ws ++ u ∷ []))
        ≡ record w { parser = q; pending = reading_header (async_read_header E P q) }
  unfolding after_write on_write
  drive-written s ws u w (going, (c, n, done, ok)) =
      drive-ends turn (write-IsStage P S net R zlib start urls) (async_write E S s) ws u w c n going
        done
      ∙ rw ok

  drive-header :
      (p : P.State) (hs : List (Read.Event E.Code)) (h : Read.Event E.Code) (w : Client P S net)
      → Succeeds E (λ es. (read_header E P p es).action) hs h
      → drive turn
          (record w { pending = reading_header (async_read_header E P p) })
          (map read_event (hs ++ h ∷ []))
        ≡ (let t = read_header E P p (hs ++ h ∷ []) in
            respond P S net R zlib start urls
              (R.get t.parser)
              (record w { parser = t.parser; pending = reading_header (read_header E P p hs) }))
  unfolding after_header on_header
  drive-header p hs h w (going, (c, n, done, ok)) =
      drive-ends turn (header-IsStage P S net R zlib start urls) (async_read_header E P p) hs h w c
        n going done
      ∙ rw ok

  -- The client when it has the header of the response to a visit.
  abbrev pub asked :
      Visit → net.Results → List (Read.Event E.Code) → P.State → Client P S net → Client P S net
  asked v results hs q w = record w {
    parser = q;
    secure = uses_tls v;
    calls = w.calls ++ asks v results;
    pending = reading_header (read_header E P (P.start (P.reset w.parser)) hs);
  }

  pub drive-asks :
      (v : Visit) (results : net.Results) (c d k : E.Code)
      → (ws : List (Write.Event E.Code)) (u : Write.Event E.Code)
      → (hs : List (Read.Event E.Code)) (h : Read.Event E.Code) (w : Client P S net)
      → (es : List (ClientEvent E.Code net.Results)) → E.failed c ≡ false
      → E.failed d ≡ false
      → Shakes v k
      → Succeeds E (λ ds. (write E S (start (get_request zlib v)) ds).action) ws u
      → let p = P.start (P.reset w.parser) in
        let q = (read_header E P p (hs ++ h ∷ [])).parser in
        Succeeds E (λ ds. (read_header E P p ds).action) hs h
        → drive turn
            (record w { pending = resolving v })
            ((resolved c results ∷ connected d ∷ shakes v k)
              ++ (map write_event (ws ++ u ∷ []) ++ (map read_event (hs ++ h ∷ []) ++ es)))
          ≡ drive turn (respond P S net R zlib start urls (R.get q) (asked v results hs q w)) es
  drive-asks v results c d k ws u hs h w es ok_c ok_d tls sends header =
      let p = P.start (P.reset w.parser) in
      let w1 = asking v results w in
      let w2 : Client P S net = record w1 {
        parser = p;
        pending = reading_header (async_read_header E P p);
      } in
      drive-first turn (record w { pending = resolving v }) w1 _ _
        (drive-connected v results c d k w ok_c ok_d tls)
      ∙ drive-first turn w1 w2 (map write_event (ws ++ u ∷ [])) _
          (drive-written (start (get_request zlib v)) ws u w1 sends)
      ∙ drive-first turn w2 _ (map read_event (hs ++ h ∷ [])) es (drive-header p hs h w2 header)
