-- ===== src/Server/Worker/Laws.antt =====
-- The worker never asks for a body before it has a header.
use http_io.Common.{◌≡◌, refl, subst, Bool, true, false, List, [], ◌∷◌, Bool-cases, inl, inr}
use http_io.System.{ErrorCodes}
use http_io.Asio.{Action, post, initiate, complete, ended, assert_failed}
use http_io.Parser.{Parser, IsLawful}
use http_io.Serializer.{Serializer}
use http_io.Read
use http_io.Read.{Turn, ReadSome}
use http_io.Read.Run.{run-single}
use http_io.Read.Header.{read_header_op}
use http_io.Read.Header.Laws.{Sound, IsSound, begun-IsSound, run-IsSound}
use http_io.Read.Body.{async_read}
use http_io.Write.All.{Session, WriteSome}
use http_io.Server.Request.{Libraries, Effect}
use http_io.Server.Request.Laws.{is_undefined}
use http_io.Server.Worker.{
  call_socket, run_worker, stop_worker, Messages, Setup, WorkerEvent, accepted, read_event,
  write_event, Pending, idle, accepting, reading_header, reading_body, writing, threw, undefined,
  Worker, do_accept, fail, give_up, do_read, on_accept, start_read, on_read_header, send,
  on_read_body, on_write, after_header, after_body, after_write, dispatch, on_event,
}

module _ {E : ErrorCodes} (P : Parser E) (S : Serializer E) (L : IsLawful E P) where
  -- No std::logic_error was thrown, and a read of a header is on its way to one.
  abbrev pub Safe : Pending P S → Type 0
  Safe idle = Unit
  Safe accepting = Unit
  Safe (reading_header t) = IsSound E P L t
  Safe (reading_body t) = Unit
  Safe (writing s) = Unit
  Safe threw = ⊥
  Safe undefined = Unit

  abbrev pub IsSafe : Worker P S → Type 0
  IsSafe w = Safe w.pending

  do_accept-IsSafe : (w : Worker P S) → IsSafe (do_accept P S w)
  unfolding do_accept
  do_accept-IsSafe w = tt

  pub run_worker-IsSafe : (w : Worker P S) → IsSafe (run_worker P S w)
  unfolding run_worker
  run_worker-IsSafe w = do_accept-IsSafe w

  pub stop_worker-IsSafe : (w : Worker P S) → IsSafe w → IsSafe (stop_worker P S w)
  unfolding stop_worker call_socket
  stop_worker-IsSafe w s = s

  do_read-IsSafe : (w : Worker P S) → IsSafe (do_read P S w)
  unfolding do_read
  do_read-IsSafe w = begun-IsSound E P L (P.start w.parser)

  give_up-IsSafe : (ec : E.Code) (w : Worker P S) → IsSafe (give_up P S ec w)
  unfolding give_up
  give_up-IsSafe ec w = elim (Bool-cases (E.is_aborted ec)) [
    | inl h ↦ rw h tt
    | inr h ↦ rw h (do_accept-IsSafe (fail P S ec w))
  ]

  start_read-IsSafe :
      (w : Worker P S)
      → P.got_header w.parser ≡ true
      → IsSafe (start_read P S (async_read E P w.parser) w)
  unfolding start_read async_read
  start_read-IsSafe w h = rw h tt

  on_read_header-IsSafe :
      (ec : E.Code) (w : Worker P S)
      → (E.failed ec ≡ false → P.got_header w.parser ≡ true)
      → IsSafe (on_read_header P S ec w)
  unfolding on_read_header
  on_read_header-IsSafe ec w h = elim (Bool-cases (E.failed ec)) [
    | inl bad ↦ rw bad (give_up-IsSafe ec w)
    | inr good ↦ rw good (start_read-IsSafe w (h good))
  ]

  after_header-IsSafe :
      (a : Action E.Code ReadSome) (t : Turn E P) (w : Worker P S)
      → t.action ≡ a
      → IsSound E P L t
      → IsSafe (after_header P S a t w)
  unfolding after_header
  after_header-IsSafe (complete ec n) t w h s =
      on_read_header-IsSafe ec (record w { parser = t.parser })
        (subst (λ a. Sound E P L a t.op.point t.parser) h s)
  after_header-IsSafe (post ec n) t w h s = s
  after_header-IsSafe (initiate r) t w h s = s
  after_header-IsSafe ended t w h s = s
  after_header-IsSafe assert_failed t w h s = s

  module _ (lib : Libraries E) (msgs : Messages P S) (setup : Setup) where
    send-IsSafe :
        (effects : List Effect) (w : Worker P S) → IsSafe (send P S lib msgs setup effects w)
    unfolding send
    send-IsSafe effects w = elim (Bool-cases (is_undefined effects)) [
      | inl h ↦ rw h tt
      | inr h ↦ rw h tt
    ]

    on_read_body-IsSafe :
        (shutting_down : Bool) (ec : E.Code) (w : Worker P S)
        → IsSafe (on_read_body P S lib msgs setup shutting_down ec w)
    unfolding on_read_body
    on_read_body-IsSafe shutting_down ec w = elim (Bool-cases (E.failed ec)) [
      | inl bad ↦ rw bad (give_up-IsSafe ec w)
      | inr good ↦ rw good (send-IsSafe _ w)
    ]

    on_write-IsSafe : (ec : E.Code) (w : Worker P S) → IsSafe (on_write P S lib msgs setup ec w)
    unfolding on_write
    on_write-IsSafe ec w = elim (Bool-cases (E.failed ec)) [
      | inl bad ↦ rw bad (give_up-IsSafe ec w)
      | inr good ↦ elim (Bool-cases (msgs.keep_alive w.response)) [
        | inl keep ↦ rw (good, keep) (do_read-IsSafe w)
        | inr closes ↦ rw (good, closes) (do_accept-IsSafe w)
      ]
    ]

    on_accept-IsSafe : (ec : E.Code) (w : Worker P S) → IsSafe (on_accept P S ec w)
    unfolding on_accept
    on_accept-IsSafe ec w = elim (Bool-cases (E.failed ec)) [
      | inl bad ↦ rw bad (give_up-IsSafe ec w)
      | inr good ↦ rw good (do_read-IsSafe w)
    ]

    after_body-IsSafe :
        (shutting_down : Bool) (a : Action E.Code ReadSome) (t : Turn E P) (w : Worker P S)
        → IsSafe (after_body P S lib msgs setup shutting_down a t w)
    unfolding after_body
    after_body-IsSafe b (complete ec n) t w = on_read_body-IsSafe b ec _
    after_body-IsSafe b (post ec n) t w = tt
    after_body-IsSafe b (initiate r) t w = tt
    after_body-IsSafe b ended t w = tt
    after_body-IsSafe b assert_failed t w = tt

    after_write-IsSafe :
        (a : Action E.Code WriteSome) (s : Session E S) (w : Worker P S)
        → IsSafe (after_write P S lib msgs setup a s w)
    unfolding after_write
    after_write-IsSafe (complete ec n) s w = on_write-IsSafe ec _
    after_write-IsSafe (post ec n) s w = tt
    after_write-IsSafe (initiate r) s w = tt
    after_write-IsSafe ended s w = tt
    after_write-IsSafe assert_failed s w = tt

    dispatch-IsSafe :
        (b : Bool) (p : Pending P S) (e : WorkerEvent E.Code) (w : Worker P S)
        → Safe p
        → IsSafe w
        → IsSafe (dispatch P S lib msgs setup b p e w)
    unfolding dispatch
    dispatch-IsSafe b accepting (accepted ec) w s i = on_accept-IsSafe ec w
    dispatch-IsSafe b (reading_header t) (read_event e) w s i =
        let t' = Read.deliver E P (read_header_op E P) t.action t e in
        after_header-IsSafe t'.action t' w refl
          (rw (run-single E P (read_header_op E P) t e) at (run-IsSound E P L t (e ∷ []) s))
    dispatch-IsSafe b (reading_body t) (read_event e) w s i = after_body-IsSafe b _ _ w
    dispatch-IsSafe b (writing t) (write_event e) w s i = after_write-IsSafe _ _ w
    dispatch-IsSafe b p e w s i = i

    -- With a lawful parser, whatever event comes, a worker that is safe stays safe: none of its
    -- handlers is left by the std::logic_error of `async_read`.
    pub on_event-IsSafe :
        (b : Bool) (e : WorkerEvent E.Code) (w : Worker P S)
        → IsSafe w
        → IsSafe (on_event P S lib msgs setup b e w)
    unfolding on_event
    on_event-IsSafe b e w s = dispatch-IsSafe b w.pending e w s s
