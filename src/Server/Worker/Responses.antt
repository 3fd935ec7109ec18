-- ===== src/Server/Worker/Responses.antt =====
-- Which responses a worker's handlers set.
use http_io.Common.{◌≡◌, ◌⊎◌, refl, Bool, List, arith, if◌then◌else◌, Bool-cases, inl, inr}
use http_io.System.{ErrorCodes}
use http_io.Asio.{Action, post, initiate, complete, ended, assert_failed}
use http_io.Parser.{Parser}
use http_io.Serializer.{Serializer}
use http_io.Read.{Turn, ReadSome}
use http_io.Read.Body.{Started, logic_error, started}
use http_io.Write.All.{Session, WriteSome}
use http_io.Server.Request.{Libraries, Effect, handle_request, service_unavailable}
use http_io.Server.Worker.{
  Messages, Setup, WorkerEvent, accepted, read_event, write_event, Pending, accepting,
  reading_header, reading_body, writing, Worker, call_socket, do_accept, fail, give_up, do_read,
  on_accept, start_read, on_read_header, answer, send, on_read_body, on_write, after_header,
  after_body, after_write, dispatch, on_event,
}

module _ {E : ErrorCodes} (P : Parser E) (S : Serializer E) where
  response-fail : (ec : E.Code) (w : Worker P S) → (fail P S ec w).response ≡ w.response
  unfolding fail call_socket
  response-fail ec w = ground arith

  response-do_accept : (w : Worker P S) → (do_accept P S w).response ≡ w.response
  unfolding do_accept call_socket
  response-do_accept w = refl

  response-give_up : (ec : E.Code) (w : Worker P S) → (give_up P S ec w).response ≡ w.response
  unfolding give_up
  response-give_up ec w = ground (arith, response-fail ec w, response-do_accept (fail P S ec w))

  response-do_read : (w : Worker P S) → (do_read P S w).response ≡ w.response
  unfolding do_read
  response-do_read w = refl

  response-on_accept : (ec : E.Code) (w : Worker P S) → (on_accept P S ec w).response ≡ w.response
  unfolding on_accept
  response-on_accept ec w = ground (arith, response-give_up ec w, response-do_read w)

  response-start_read :
      (r : Started (Turn E P)) (w : Worker P S) → (start_read P S r w).response ≡ w.response
  unfolding start_read
  response-start_read logic_error w = refl
  response-start_read (started t) w = refl

  response-on_read_header :
      (ec : E.Code) (w : Worker P S) → (on_read_header P S ec w).response ≡ w.response
  unfolding on_read_header
  response-on_read_header ec w = elim (Bool-cases (E.failed ec)) [
    | inl bad ↦ rw bad (response-give_up ec w)
    | inr good ↦ rw good (response-start_read _ w)
  ]

  response-after_header :
      (a : Action E.Code ReadSome) (t : Turn E P) (w : Worker P S)
      → (after_header P S a t w).response ≡ w.response
  unfolding after_header
  response-after_header (complete ec n) t w = response-on_read_header ec _
  response-after_header (post ec n) t w = refl
  response-after_header (initiate r) t w = refl
  response-after_header ended t w = refl
  response-after_header assert_failed t w = refl

  module _ (lib : Libraries E) (msgs : Messages P S) (setup : Setup) where
    response-on_write :
        (ec : E.Code) (w : Worker P S) → (on_write P S lib msgs setup ec w).response ≡ w.response
    unfolding on_write
    response-on_write ec w =
        ground (arith, response-give_up ec w, response-do_read w, response-do_accept w)

    response-after_write :
        (a : Action E.Code WriteSome) (s : Session E S) (w : Worker P S)
        → (after_write P S lib msgs setup a s w).response ≡ w.response
    unfolding after_write
    response-after_write (complete ec n) s w = response-on_write ec _
    response-after_write (post ec n) s w = refl
    response-after_write (initiate r) s w = refl
    response-after_write ended s w = refl
    response-after_write assert_failed s w = refl

    -- The new worker has the old response, or the one that is due to the request it has read.
    abbrev pub Responds : Bool → List Effect → Worker P S → Type 0
    Responds shutting_down old w =
        (w.response ≡ old)
        ⊎ (w.response ≡ (
            if shutting_down
            then service_unavailable lib (msgs.get w.parser)
            else handle_request lib setup.msvc setup.doc_root (msgs.get w.parser)))

    response-send :
        (effects : List Effect) (w : Worker P S)
        → ((send P S lib msgs setup effects w).response ≡ effects)
          × ((send P S lib msgs setup effects w).parser ≡ w.parser)
    unfolding send
    response-send effects w = ground arith

    on_read_body-Responds :
        (b : Bool) (ec : E.Code) (w : Worker P S)
        → Responds b w.response (on_read_body P S lib msgs setup b ec w)
    unfolding on_read_body answer
    on_read_body-Responds b ec w = elim (Bool-cases (E.failed ec)) [
      | inl bad ↦ rw bad (inl (response-give_up ec w))
      | inr good ↦
          let sent = response-send (answer P S lib msgs setup b (msgs.get w.parser)) w in
          rw (good, sent.1) (inr sent.0)
    ]

    after_body-Responds :
        (b : Bool) (a : Action E.Code ReadSome) (t : Turn E P) (w : Worker P S)
        → Responds b w.response (after_body P S lib msgs setup b a t w)
    unfolding after_body
    after_body-Responds b (complete ec n) t w =
        on_read_body-Responds b ec (record w { parser = t.parser })
    after_body-Responds b (post ec n) t w = inl refl
    after_body-Responds b (initiate r) t w = inl refl
    after_body-Responds b ended t w = inl refl
    after_body-Responds b assert_failed t w = inl refl

    dispatch-Responds :
        (b : Bool) (p : Pending P S) (e : WorkerEvent E.Code) (w : Worker P S)
        → Responds b w.response (dispatch P S lib msgs setup b p e w)
    unfolding dispatch
    dispatch-Responds b accepting (accepted ec) w = inl (response-on_accept ec w)
    dispatch-Responds b (reading_header t) (read_event e) w = inl (response-after_header _ _ w)
    dispatch-Responds b (reading_body t) (read_event e) w = after_body-Responds b _ _ w
    dispatch-Responds b (writing t) (write_event e) w = inl (response-after_write _ _ w)
    dispatch-Responds b p e w = inl refl

    -- Whatever event comes, a worker keeps its response, or sets the one that is due to the request
    -- in its parser: 503 while the server shuts down, and otherwise the answer of `handle_request`.
    pub on_event-Responds :
        (b : Bool) (e : WorkerEvent E.Code) (w : Worker P S)
        → Responds b w.response (on_event P S lib msgs setup b e w)
    unfolding on_event
    on_event-Responds b e w = dispatch-Responds b w.pending e w
