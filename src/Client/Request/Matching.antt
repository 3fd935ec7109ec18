-- ===== src/Client/Request/Matching.antt =====
-- What each handler of the client does, the abstract client may do.
use http_io.Common.{
  ◌&&◌, not, ◌≡◌, refl, sym, Bool, true, List, [], ◌∷◌, Option, none, some, Bool-cases,
  Option-cases, inl, inr,
}
use http_io.System.{ErrorCodes}
use http_io.Parser.{Parser}
use http_io.Serializer.{Serializer, Buffers}
use http_io.Read.{Turn}
use http_io.Read.Body.{Started, started, async_read_some}
use http_io.Client.Libraries.{Urls, Response, ResponseParser, Network}
use http_io.Client.Visit.{Visit, visit_of, uses_tls, is_redirect, RequestCall}
use http_io.Client.Request.Protocol.{
  Stage, begun, requested, closed, connects, names, handshakes, sends_secure, sends_plain, leaves,
  closes, Route, next,
}
use http_io.Client.Request.{
  Call, Pending, resolving, connecting, handshaking, leaving, writing, reading_header, reading_body,
  closing, returned, threw, undefined, Client, on_resolved, start_handshake, on_connected,
  on_handshaken, on_write, print_body, start_shutdown, start_read, read_body, on_read_some,
  on_closed, follow, redirect, respond, on_header,
}

module _ {E : ErrorCodes} (P : Parser E) (S : Serializer E) (net : Network E) (R : ResponseParser P)
    (zlib : Bool) (start : List RequestCall → S.State) (urls : Urls) where
  -- Where the abstract client is while the client waits, and what its stream holds.
  abbrev pub Matches : Pending P S net → Bool → Stage → Type 0
  Matches (resolving v) secure s = s ≡ Stage.resolving v
  Matches (connecting v) secure s = s ≡ Stage.connecting v
  Matches (handshaking v) secure s = (s ≡ Stage.handshaking v) × (uses_tls v ≡ true)
  Matches (leaving v) secure s = s ≡ begun v
  Matches (writing t) secure s = (v : Visit) × (s ≡ requested v) × (secure ≡ uses_tls v)
  Matches (reading_header t) secure s = (v : Visit) × (s ≡ requested v) × (secure ≡ uses_tls v)
  Matches (reading_body t) secure s = (v : Visit) × (s ≡ requested v) × (secure ≡ uses_tls v)
  Matches closing secure s = s ≡ closed
  Matches returned secure s = s ≡ closed
  Matches (threw x) secure s = Unit
  Matches undefined secure s = Unit

  abbrev pub Refines : Visit → Client P S net → Type 0
  Refines first w =
      (s : Stage) × Route net zlib urls (begun first) w.calls s × Matches w.pending w.secure s

  module _ (first : Visit) where
    abbrev pub At : List (Call net.Results) → Stage → Type 0
    At cs s = Route net zlib urls (begun first) cs s

    -- The request over the stream of the visit was made.
    abbrev pub Requested : Client P S net → Type 0
    Requested w = (v : Visit) × At w.calls (requested v) × (w.secure ≡ uses_tls v)

    pub on_resolved-Refines :
        (ec : E.Code) (results : net.Results) (v : Visit) (w : Client P S net)
        → At w.calls (Stage.resolving v)
        → Refines first (on_resolved P S net ec results v w)
    unfolding on_resolved
    on_resolved-Refines ec results v w r = elim (Bool-cases (E.failed ec)) [
      | inl bad ↦ rw bad (Stage.resolving v, r, tt)
      | inr good ↦ rw good (Stage.connecting v, next r (connects v results), refl)
    ]

    start_handshake-Refines :
        (o : Option E.Code) (v : Visit) (w : Client P S net)
        → uses_tls v ≡ true
        → At w.calls (Stage.connecting v)
        → Refines first (start_handshake P S net o v w)
    unfolding start_handshake
    start_handshake-Refines (some ec) v w h r = (Stage.named v, next r (names v h), tt)
    start_handshake-Refines none v w h r =
        (Stage.handshaking v, next (next r (names v h)) (handshakes v), (refl, h))

    pub on_connected-Refines :
        (ec : E.Code) (v : Visit) (w : Client P S net)
        → At w.calls (Stage.connecting v)
        → Refines first (on_connected P S net R zlib start ec v w)
    unfolding on_connected
    on_connected-Refines ec v w r = elim (Bool-cases (E.failed ec)) [
      | inl bad ↦ rw bad (Stage.connecting v, r, tt)
      | inr good ↦ elim (Bool-cases (uses_tls v)) [
        | inl tls ↦ rw (good, tls) (start_handshake-Refines (net.set_host_name v.host) v w tls r)
        | inr plain ↦
            rw (good, plain) (requested v, next r (sends_plain v plain), (v, refl, sym plain))
      ]
    ]

    pub on_handshaken-Refines :
        (ec : E.Code) (v : Visit) (w : Client P S net)
        → uses_tls v ≡ true
        → At w.calls (Stage.handshaking v)
        → Refines first (on_handshaken P S net R zlib start ec v w)
    unfolding on_handshaken
    on_handshaken-Refines ec v w h r = elim (Bool-cases (E.failed ec)) [
      | inl bad ↦ rw bad (Stage.handshaking v, r, tt)
      | inr good ↦ rw good (requested v, next r (sends_secure v), (v, refl, sym h))
    ]

    pub on_write-Refines :
        (ec : E.Code) (w : Client P S net)
        → Requested w
        → Refines first (on_write P S net R zlib start ec w)
    unfolding on_write
    on_write-Refines ec w (v, r, m) = elim (Bool-cases (E.failed ec)) [
      | inl bad ↦ rw bad (requested v, r, tt)
      | inr good ↦ rw good (requested v, r, (v, refl, m))
    ]

    start_read-Refines :
        (o : Started (Turn E P)) (w : Client P S net)
        → Requested w
        → Refines first (start_read P S net R zlib start o w)
    unfolding start_read
    start_read-Refines Started.logic_error w (v, r, m) = (requested v, r, tt)
    start_read-Refines (started t) w (v, r, m) = (requested v, r, (v, refl, m))

    print_body-Requested :
        (bs : Buffers) (w : Client P S net)
        → Requested w
        → Requested (print_body P S net R zlib start bs w)
    unfolding print_body
    print_body-Requested [] w q = q
    print_body-Requested (b ∷ bs) w q = print_body-Requested bs _ q

    read_body-Refines :
        (w : Client P S net) → Requested w → Refines first (read_body P S net R zlib start w)
    unfolding read_body start_shutdown
    read_body-Refines w q =
        let w' = print_body P S net R zlib start (R.pull_body w.parser) w in
        let (v, r, m) = print_body-Requested (R.pull_body w.parser) w q in
        elim (Bool-cases (P.is_complete w'.parser)) [
          | inl done ↦ rw (done, m) (closed, next r (closes v), refl)
          | inr more ↦ rw more (start_read-Refines (async_read_some E P w'.parser) w' (v, r, m))
        ]

    pub on_read_some-Refines :
        (ec : E.Code) (w : Client P S net)
        → Requested w
        → Refines first (on_read_some P S net R zlib start ec w)
    unfolding on_read_some
    on_read_some-Refines ec w q = elim (Bool-cases (E.failed ec && not (E.is_need_more_input ec))) [
      | inl bad ↦ let (v, r, m) = q in rw bad (requested v, r, tt)
      | inr good ↦ rw good (read_body-Refines w q)
    ]

    pub on_closed-Refines :
        (ec : E.Code) (w : Client P S net)
        → At w.calls closed
        → Refines first (on_closed P S net R zlib start ec w)
    unfolding on_closed
    on_closed-Refines ec w r = elim (Bool-cases (E.failed ec && not (net.is_stream_truncated ec))) [
      | inl bad ↦ rw bad (closed, r, tt)
      | inr good ↦ rw good (closed, r, refl)
    ]

    redirect-Refines :
        (resp : Response) (w : Client P S net)
        → is_redirect resp.status ≡ true
        → Requested w
        → Refines first (redirect P S net R zlib start urls resp.location w)
    unfolding redirect follow start_shutdown
    redirect-Refines resp w h (v, r, m) = elim (Option-cases resp.location) [
      | inl lost ↦ rw lost (requested v, r, tt)
      | inr (location, found) ↦ elim (Option-cases (urls.parse_uri location)) [
        | inl bad ↦ rw (found, redirect, bad, follow) (requested v, r, tt)
        | inr (url, parsed) ↦
            rw (found, redirect, parsed, follow, m)
              (begun (visit_of urls url), next r (leaves v resp location url h found parsed), refl)
      ]
    ]

    pub on_header-Refines :
        (ec : E.Code) (w : Client P S net)
        → Requested w
        → Refines first (on_header P S net R zlib start urls ec w)
    unfolding on_header respond
    on_header-Refines ec w q = elim (Bool-cases (E.failed ec)) [
      | inl bad ↦ let (v, r, m) = q in rw bad (requested v, r, tt)
      | inr good ↦ elim (Bool-cases (is_redirect (R.get w.parser).status)) [
        | inl moved ↦ rw (good, moved) (redirect-Refines (R.get w.parser) w moved q)
        | inr stays ↦ rw (good, stays) (read_body-Refines w q)
      ]
    ]
