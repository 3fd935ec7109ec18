-- ===== src/Client/Request/Errors.antt =====
-- When the client throws the code of a failed operation.
use http_io.Common.{
  ℕ, ◌≡◌, ◌≢◌, ◌↔◌, ◌⊎◌, inl, inr, refl, sym, ap, subst, ◌∙◌, Bool, true, false, not, ◌&&◌, List,
  Option, none, some, arith, if◌then◌else◌, Bool-cases,
}
use http_io.System.{ErrorCodes}
use http_io.Asio.{Action, post, initiate, complete, ended, assert_failed}
use http_io.Parser.{Parser}
use http_io.Serializer.{Serializer}
use http_io.Text.{Text}
use http_io.Read
use http_io.Read.{Turn, ReadSome}
use http_io.Read.Header.{read_header_op}
use http_io.Read.Body.{Started, started, read_body_op, async_read_some}
use http_io.Write.All
use http_io.Write.All.{Session, WriteSome}
use http_io.Client.Libraries.{Urls, Response, ResponseParser, Network}
use http_io.Client.Visit.{Visit, RequestCall, uses_tls, is_redirect}
use http_io.Client.Request.{
  system_error, ClientEvent, resolved, connected, handshaken, shut_down, read_event, write_event,
  Pending, resolving, connecting, handshaking, leaving, writing, reading_header, reading_body,
  closing, threw, Client, throw, on_resolved, start_handshake, on_connected, on_handshaken,
  on_write, start_read, print_body, start_shutdown, start_connect, write_get_request, read_body,
  on_read_some, on_closed, follow, redirect, respond, on_header, after_write, after_header,
  after_body, dispatch, on_event,
}

both : {A B C : Type 0} → A ↔ B → B ↔ C → A ↔ C
both f g = (λ a. g.0 (f.0 a), λ c. f.1 (g.1 c))

and_not : (a b : Bool) → ((a && not b) ≡ true) ↔ ((a ≡ true) × (b ≡ false))
and_not a b = ground arith

module _ {E : ErrorCodes} (P : Parser E) (S : Serializer E) (net : Network E) where
  -- An operation of the library completes with the error.
  abbrev Errs : {I : Type 0} → Action E.Code I → E.Code → Type 0
  Errs a ec = (n : ℕ) × (a ≡ complete ec n) × (E.failed ec ≡ true)

  -- The event completes what the client waits for with the error: for a write or a read, that of
  -- the operation of the library, whatever it comes from. A host name that is refused counts as an
  -- error of the connection. The shutdown before a redirect is not among them, nor a need for more
  -- input in the body, nor a truncated TLS stream at the end.
  abbrev pub Fails : Pending P S net → ClientEvent E.Code net.Results → E.Code → Type 0
  Fails (resolving v) (resolved c results) ec = (E.failed c ≡ true) × (c ≡ ec)
  Fails (connecting v) (connected c) ec =
      ((E.failed c ≡ true) × (c ≡ ec))
      ⊎ ((E.failed c ≡ false) × (uses_tls v ≡ true) × (net.set_host_name v.host ≡ some ec))
  Fails (handshaking v) (handshaken c) ec = (E.failed c ≡ true) × (c ≡ ec)
  Fails (writing s) (write_event e) ec = Errs (All.deliver E S s e).action ec
  Fails (reading_header t) (read_event e) ec =
      Errs (Read.deliver E P (read_header_op E P) t.action t e).action ec
  Fails (reading_body t) (read_event e) ec =
      Errs (Read.deliver E P (read_body_op E P true) t.action t e).action ec
      × (E.is_need_more_input ec ≡ false)
  Fails closing (shut_down c) ec =
      ((E.failed c && not (net.is_stream_truncated c)) ≡ true) × (c ≡ ec)
  Fails p e ec = ⊥

  abbrev Throws : Client P S net → E.Code → Type 0
  Throws w ec = w.pending ≡ threw (system_error ec)

  abbrev IsQuiet : Client P S net → Type 0
  IsQuiet w = (ec : E.Code) → w.pending ≢ threw (system_error ec)

  code_of : E.Code → Pending P S net → E.Code
  code_of d (threw (system_error c)) = c
  code_of d p = d

  same_code :
      (c d : E.Code) (p : Pending P S net)
      → p ≡ threw (system_error c)
      → p ≡ threw (system_error d)
      → c ≡ d
  unfolding code_of
  same_code c d p h k = ap (code_of d) (sym h ∙ k)

  -- How the client tests a code: it throws it, or it goes on quietly.
  guard-Throws :
      (b : Bool) (c ec : E.Code) (w v : Client P S net)
      → IsQuiet v
      → Throws (if b then throw P S net c w else v) ec ↔ ((b ≡ true) × (c ≡ ec))
  unfolding throw
  guard-Throws true c ec w v q =
      (λ h. (refl, same_code c ec _ refl h), λ (_, e). ap (λ d. threw (system_error d)) e)
  guard-Throws false c ec w v q = (λ h. absurd (q ec h), λ (e, _). cc)

  action_code : {I : Type 0} → E.Code → Action E.Code I → E.Code
  action_code d (complete c n) = c
  action_code d a = d

  Errs-complete :
      {I : Type 0} (c ec : E.Code) (n : ℕ)
      → ((E.failed c ≡ true) × (c ≡ ec)) ↔ Errs {I = I} (complete c n) ec
  unfolding action_code
  Errs-complete c ec n = (
    λ (bad, e). (n, ap (λ d. complete d n) e, subst (λ d. E.failed d ≡ true) e bad),
    λ (m, h, bad).
        let e : c ≡ ec = ap (action_code c) h in (subst (λ d. E.failed d ≡ true) (sym e) bad, e),
  )

  module _ (R : ResponseParser P) (zlib : Bool) (start : List RequestCall → S.State)
      (urls : Urls) where
    start_read-IsQuiet :
        (o : Started (Turn E P)) (w : Client P S net)
        → IsQuiet (start_read P S net R zlib start o w)
    unfolding start_read
    start_read-IsQuiet Started.logic_error w ec h = cc
    start_read-IsQuiet (started t) w ec h = cc

    read_body-IsQuiet : (w : Client P S net) → IsQuiet (read_body P S net R zlib start w)
    unfolding read_body start_shutdown
    read_body-IsQuiet w ec h =
        let w' = print_body P S net R zlib start (R.pull_body w.parser) w in
        elim (Bool-cases (P.is_complete w'.parser)) [
          | inl done ↦ let closes : closing ≡ threw (system_error ec) = rw done at h in cc
          | inr more ↦
              let reads : Throws
                  (start_read P S net R zlib start (async_read_some E P w'.parser) w') ec =
                rw more at h in
              start_read-IsQuiet _ w' ec reads
        ]

    follow-IsQuiet :
        (o : Option urls.Url) (w : Client P S net) → IsQuiet (follow P S net R zlib start urls o w)
    unfolding follow start_shutdown
    follow-IsQuiet none w ec h = cc
    follow-IsQuiet (some url) w ec h = cc

    redirect-IsQuiet :
        (o : Option Text) (w : Client P S net) → IsQuiet (redirect P S net R zlib start urls o w)
    unfolding redirect
    redirect-IsQuiet none w = λ ec h. cc
    redirect-IsQuiet (some location) w = follow-IsQuiet (urls.parse_uri location) w

    respond-IsQuiet :
        (resp : Response) (w : Client P S net) → IsQuiet (respond P S net R zlib start urls resp w)
    unfolding respond
    respond-IsQuiet resp w = elim (Bool-cases (is_redirect resp.status)) [
      | inl moved ↦ rw moved (redirect-IsQuiet resp.location w)
      | inr over ↦ rw over (read_body-IsQuiet w)
    ]

    on_resolved-Throws :
        (c ec : E.Code) (results : net.Results) (v : Visit) (w : Client P S net)
        → Throws (on_resolved P S net c results v w) ec ↔ ((E.failed c ≡ true) × (c ≡ ec))
    unfolding on_resolved
    on_resolved-Throws c ec results v w = guard-Throws (E.failed c) c ec w _ (λ d h. cc)

    start_handshake-Throws :
        (o : Option E.Code) (ec : E.Code) (v : Visit) (w : Client P S net)
        → Throws (start_handshake P S net o v w) ec ↔ (o ≡ some ec)
    unfolding start_handshake throw
    start_handshake-Throws none ec v w = (λ h. cc, λ h. cc)
    start_handshake-Throws (some c) ec v w = (λ h. ap some (same_code c ec _ refl h), λ h. cc)

    connected-Throws :
        (b t : Bool) (o : Option E.Code) (c ec : E.Code) (v : Visit) (w w' : Client P S net)
        → Throws
            (if b
              then throw P S net c w
              else if t
              then start_handshake P S net o v w
              else write_get_request P S net R zlib start v w')
            ec
          ↔ (((b ≡ true) × (c ≡ ec)) ⊎ ((b ≡ false) × (t ≡ true) × (o ≡ some ec)))
    unfolding throw write_get_request
    connected-Throws true t o c ec v w w' = (
      λ h. inl (refl, same_code c ec _ refl h),
      λ s. elim s [ inl (_, e) ↦ ap (λ d. threw (system_error d)) e | inr (h, _, _) ↦ absurd cc ],
    )
    connected-Throws false true o c ec v w w' =
        let given = start_handshake-Throws o ec v w in
        (
          λ h. inr (refl, refl, given.0 h),
          λ s. elim s [ inl (h, _) ↦ absurd cc | inr (_, _, e) ↦ given.1 e ],
        )
    connected-Throws false false o c ec v w w' =
        (λ h. absurd cc, λ s. elim s [ inl (h, _) ↦ absurd cc | inr (_, h, _) ↦ absurd cc ])

    on_connected-Throws :
        (c ec : E.Code) (v : Visit) (w : Client P S net)
        → Throws (on_connected P S net R zlib start c v w) ec ↔ (
            ((E.failed c ≡ true) × (c ≡ ec))
            ⊎ ((E.failed c ≡ false) × (uses_tls v ≡ true) × (net.set_host_name v.host ≡ some ec)))
    unfolding on_connected
    on_connected-Throws c ec v w =
        connected-Throws (E.failed c) (uses_tls v) (net.set_host_name v.host) c ec v w
          (record w { secure = false })

    on_handshaken-Throws :
        (c ec : E.Code) (v : Visit) (w : Client P S net)
        → Throws (on_handshaken P S net R zlib start c v w) ec ↔ ((E.failed c ≡ true) × (c ≡ ec))
    unfolding on_handshaken write_get_request
    on_handshaken-Throws c ec v w = guard-Throws (E.failed c) c ec w _ (λ d h. cc)

    on_write-Throws :
        (c ec : E.Code) (w : Client P S net)
        → Throws (on_write P S net R zlib start c w) ec ↔ ((E.failed c ≡ true) × (c ≡ ec))
    unfolding on_write
    on_write-Throws c ec w = guard-Throws (E.failed c) c ec w _ (λ d h. cc)

    on_header-Throws :
        (c ec : E.Code) (w : Client P S net)
        → Throws (on_header P S net R zlib start urls c w) ec ↔ ((E.failed c ≡ true) × (c ≡ ec))
    unfolding on_header
    on_header-Throws c ec w =
        guard-Throws (E.failed c) c ec w _ (respond-IsQuiet (R.get w.parser) w)

    on_read_some-Throws :
        (c ec : E.Code) (w : Client P S net)
        → Throws (on_read_some P S net R zlib start c w) ec
          ↔ (((E.failed c && not (E.is_need_more_input c)) ≡ true) × (c ≡ ec))
    unfolding on_read_some
    on_read_some-Throws c ec w = guard-Throws _ c ec w _ (read_body-IsQuiet w)

    on_closed-Throws :
        (c ec : E.Code) (w : Client P S net)
        → Throws (on_closed P S net R zlib start c w) ec
          ↔ (((E.failed c && not (net.is_stream_truncated c)) ≡ true) × (c ≡ ec))
    unfolding on_closed
    on_closed-Throws c ec w = guard-Throws _ c ec w _ (λ d h. cc)

    after_write-Throws :
        (a : Action E.Code WriteSome) (s : Session E S) (w : Client P S net) (ec : E.Code)
        → Throws (after_write P S net R zlib start urls a s w) ec ↔ Errs a ec
    unfolding after_write
    after_write-Throws (complete c n) s w ec = both (on_write-Throws c ec w) (Errs-complete c ec n)
    after_write-Throws (post c n) s w ec = (λ h. absurd cc, λ (_, h, _). absurd cc)
    after_write-Throws (initiate r) s w ec = (λ h. absurd cc, λ (_, h, _). absurd cc)
    after_write-Throws ended s w ec = (λ h. absurd cc, λ (_, h, _). absurd cc)
    after_write-Throws assert_failed s w ec = (λ h. absurd cc, λ (_, h, _). absurd cc)

    after_header-Throws :
        (a : Action E.Code ReadSome) (t : Turn E P) (w : Client P S net) (ec : E.Code)
        → Throws (after_header P S net R zlib start urls a t w) ec ↔ Errs a ec
    unfolding after_header
    after_header-Throws (complete c n) t w ec =
        both (on_header-Throws c ec _) (Errs-complete c ec n)
    after_header-Throws (post c n) t w ec = (λ h. absurd cc, λ (_, h, _). absurd cc)
    after_header-Throws (initiate r) t w ec = (λ h. absurd cc, λ (_, h, _). absurd cc)
    after_header-Throws ended t w ec = (λ h. absurd cc, λ (_, h, _). absurd cc)
    after_header-Throws assert_failed t w ec = (λ h. absurd cc, λ (_, h, _). absurd cc)

    Errs-body :
        (c ec : E.Code) (n : ℕ)
        → (((E.failed c && not (E.is_need_more_input c)) ≡ true) × (c ≡ ec))
          ↔ (Errs {I = ReadSome} (complete c n) ec × (E.is_need_more_input ec ≡ false))
    Errs-body c ec n =
        let completes = Errs-complete c ec n in
        (
          λ (g, e).
              let (bad, other) = (and_not (E.failed c) (E.is_need_more_input c)).0 g in
              (completes.0 (bad, e), subst (λ d. E.is_need_more_input d ≡ false) e other),
          λ (h, other).
              let (bad, e) = completes.1 h in
              (
                (and_not (E.failed c) (E.is_need_more_input c)).1
                    (bad, subst (λ d. E.is_need_more_input d ≡ false) (sym e) other),
                e,
              ),
        )

    after_body-Throws :
        (a : Action E.Code ReadSome) (t : Turn E P) (w : Client P S net) (ec : E.Code)
        → Throws (after_body P S net R zlib start urls a t w) ec
          ↔ (Errs a ec × (E.is_need_more_input ec ≡ false))
    unfolding after_body
    after_body-Throws (complete c n) t w ec = both (on_read_some-Throws c ec _) (Errs-body c ec n)
    after_body-Throws (post c n) t w ec = (λ h. absurd cc, λ ((_, h, _), _). absurd cc)
    after_body-Throws (initiate r) t w ec = (λ h. absurd cc, λ ((_, h, _), _). absurd cc)
    after_body-Throws ended t w ec = (λ h. absurd cc, λ ((_, h, _), _). absurd cc)
    after_body-Throws assert_failed t w ec = (λ h. absurd cc, λ ((_, h, _), _). absurd cc)

    dispatch-Throws :
        (p : Pending P S net) (e : ClientEvent E.Code net.Results) (w : Client P S net)
        (ec : E.Code)
        → IsQuiet w
        → Throws (dispatch P S net R zlib start urls p e w) ec ↔ Fails p e ec
    unfolding dispatch start_connect
    dispatch-Throws (resolving v) (resolved c results) w ec q = on_resolved-Throws c ec results v w
    dispatch-Throws (connecting v) (connected c) w ec q = on_connected-Throws c ec v w
    dispatch-Throws (handshaking v) (handshaken c) w ec q = on_handshaken-Throws c ec v w
    dispatch-Throws (leaving v) (shut_down c) w ec q = (λ h. absurd cc, λ h. absurd h)
    dispatch-Throws (writing s) (write_event e) w ec q = after_write-Throws _ _ w ec
    dispatch-Throws (reading_header t) (read_event e) w ec q = after_header-Throws _ _ w ec
    dispatch-Throws (reading_body t) (read_event e) w ec q = after_body-Throws _ _ w ec
    dispatch-Throws closing (shut_down c) w ec q = on_closed-Throws c ec w
    dispatch-Throws p e w ec q = (λ h. absurd (q ec h), λ h. absurd h)

    -- A client that has not thrown a code throws one on an event exactly if that event completes what
    -- it waits for with this error: of the resolver, the connection or the host name given to TLS, the
    -- handshake, the write, the read of the header, errors of the parser included, a read of the body,
    -- but for a need for more input, or the last shutdown, but for a truncated TLS stream. An error of
    -- the shutdown before a redirect is not thrown.
    pub on_event-Throws :
        (e : ClientEvent E.Code net.Results) (w : Client P S net) (ec : E.Code)
        → ((c : E.Code) → w.pending ≢ threw (system_error c))
        → ((on_event P S net R zlib start urls e w).pending ≡ threw (system_error ec))
          ↔ Fails w.pending e ec
    unfolding on_event
    on_event-Throws e w ec q = dispatch-Throws w.pending e w ec q
