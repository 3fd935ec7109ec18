-- ===== src/Server/Worker/Calls.antt =====
-- Which calls on its socket a worker's handlers make.
use http_io.Common.{ℕ, suc, ◌+◌, ◌≡◌, refl, Bool, List, [], ◌∷◌, ◌++◌, arith, Bool-cases, inl, inr}
use http_io.System.{ErrorCodes}
use http_io.Asio.{Action, post, initiate, complete, ended, assert_failed}
use http_io.Parser.{Parser}
use http_io.Serializer.{Serializer}
use http_io.Read.{Turn, ReadSome}
use http_io.Read.Body.{Started, logic_error, started}
use http_io.Write.All.{Session, WriteSome}
use http_io.Server.Request.{Libraries, Effect}
use http_io.Server.Worker.{
  SocketCall, close, cancel, shutdown_send, Messages, Setup, WorkerEvent, accepted, read_event,
  write_event, Pending, accepting, reading_header, reading_body, writing, Worker, call_socket,
  do_accept, run_worker, stop_worker, fail, give_up, do_read, on_accept, start_read, on_read_header,
  send, on_read_body, on_write, after_header, after_body, after_write, dispatch, on_event,
}

-- How often the socket was cancelled.
abbrev pub cancels : List SocketCall → ℕ
cancels [] = 0
cancels (cancel ∷ cs) = suc (cancels cs)
cancels (close ∷ cs) = cancels cs
cancels (shutdown_send ∷ cs) = cancels cs

cancels-append : (cs ds : List SocketCall) → cancels (cs ++ ds) ≡ cancels cs + cancels ds
cancels-append [] ds = omega arith
cancels-append (cancel ∷ cs) ds = omega (arith, cancels-append cs ds)
cancels-append (close ∷ cs) ds = cancels-append cs ds
cancels-append (shutdown_send ∷ cs) ds = cancels-append cs ds

pub cancels-cancel : (cs : List SocketCall) → cancels (cs ++ cancel ∷ []) ≡ suc (cancels cs)
cancels-cancel cs = omega (arith, cancels-append cs (cancel ∷ []))

module _ {E : ErrorCodes} (P : Parser E) (S : Serializer E) where
  pub cancels-stop_worker :
      (w : Worker P S) → cancels (stop_worker P S w).calls ≡ suc (cancels w.calls)
  unfolding stop_worker
  cancels-stop_worker w = cancels-cancel w.calls

  cancels-do_accept : (w : Worker P S) → cancels (do_accept P S w).calls ≡ cancels w.calls
  unfolding do_accept
  cancels-do_accept w = omega (arith, cancels-append w.calls (close ∷ []))

  pub cancels-run_worker : (w : Worker P S) → cancels (run_worker P S w).calls ≡ cancels w.calls
  unfolding run_worker
  cancels-run_worker w = cancels-do_accept w

  cancels-fail : (ec : E.Code) (w : Worker P S) → cancels (fail P S ec w).calls ≡ cancels w.calls
  unfolding fail call_socket
  cancels-fail ec w = ground (arith, cancels-append w.calls (shutdown_send ∷ []))

  cancels-give_up :
      (ec : E.Code) (w : Worker P S) → cancels (give_up P S ec w).calls ≡ cancels w.calls
  unfolding give_up
  cancels-give_up ec w = ground (arith, cancels-fail ec w, cancels-do_accept (fail P S ec w))

  cancels-do_read : (w : Worker P S) → cancels (do_read P S w).calls ≡ cancels w.calls
  unfolding do_read
  cancels-do_read w = refl

  cancels-on_accept :
      (ec : E.Code) (w : Worker P S) → cancels (on_accept P S ec w).calls ≡ cancels w.calls
  unfolding on_accept
  cancels-on_accept ec w = ground (arith, cancels-give_up ec w, cancels-do_read w)

  cancels-start_read :
      (r : Started (Turn E P)) (w : Worker P S)
      → cancels (start_read P S r w).calls ≡ cancels w.calls
  unfolding start_read
  cancels-start_read logic_error w = refl
  cancels-start_read (started t) w = refl

  cancels-on_read_header :
      (ec : E.Code) (w : Worker P S) → cancels (on_read_header P S ec w).calls ≡ cancels w.calls
  unfolding on_read_header
  cancels-on_read_header ec w = elim (Bool-cases (E.failed ec)) [
    | inl bad ↦ rw bad (cancels-give_up ec w)
    | inr good ↦ rw good (cancels-start_read _ w)
  ]

  cancels-after_header :
      (a : Action E.Code ReadSome) (t : Turn E P) (w : Worker P S)
      → cancels (after_header P S a t w).calls ≡ cancels w.calls
  unfolding after_header
  cancels-after_header (complete ec n) t w = cancels-on_read_header ec _
  cancels-after_header (post ec n) t w = refl
  cancels-after_header (initiate r) t w = refl
  cancels-after_header ended t w = refl
  cancels-after_header assert_failed t w = refl

  module _ (lib : Libraries E) (msgs : Messages P S) (setup : Setup) where
    cancels-send :
        (effects : List Effect) (w : Worker P S)
        → cancels (send P S lib msgs setup effects w).calls ≡ cancels w.calls
    unfolding send
    cancels-send effects w = ground arith

    cancels-on_read_body :
        (b : Bool) (ec : E.Code) (w : Worker P S)
        → cancels (on_read_body P S lib msgs setup b ec w).calls ≡ cancels w.calls
    unfolding on_read_body
    cancels-on_read_body b ec w = elim (Bool-cases (E.failed ec)) [
      | inl bad ↦ rw bad (cancels-give_up ec w)
      | inr good ↦ rw good (cancels-send _ w)
    ]

    cancels-on_write :
        (ec : E.Code) (w : Worker P S)
        → cancels (on_write P S lib msgs setup ec w).calls ≡ cancels w.calls
    unfolding on_write
    cancels-on_write ec w =
        ground (arith, cancels-give_up ec w, cancels-do_read w, cancels-do_accept w)

    cancels-after_body :
        (b : Bool) (a : Action E.Code ReadSome) (t : Turn E P) (w : Worker P S)
        → cancels (after_body P S lib msgs setup b a t w).calls ≡ cancels w.calls
    unfolding after_body
    cancels-after_body b (complete ec n) t w = cancels-on_read_body b ec _
    cancels-after_body b (post ec n) t w = refl
    cancels-after_body b (initiate r) t w = refl
    cancels-after_body b ended t w = refl
    cancels-after_body b assert_failed t w = refl

    cancels-after_write :
        (a : Action E.Code WriteSome) (s : Session E S) (w : Worker P S)
        → cancels (after_write P S lib msgs setup a s w).calls ≡ cancels w.calls
    unfolding after_write
    cancels-after_write (complete ec n) s w = cancels-on_write ec _
    cancels-after_write (post ec n) s w = refl
    cancels-after_write (initiate r) s w = refl
    cancels-after_write ended s w = refl
    cancels-after_write assert_failed s w = refl

    cancels-dispatch :
        (b : Bool) (p : Pending P S) (e : WorkerEvent E.Code) (w : Worker P S)
        → cancels (dispatch P S lib msgs setup b p e w).calls ≡ cancels w.calls
    unfolding dispatch
    cancels-dispatch b accepting (accepted ec) w = cancels-on_accept ec w
    cancels-dispatch b (reading_header t) (read_event e) w = cancels-after_header _ _ w
    cancels-dispatch b (reading_body t) (read_event e) w = cancels-after_body b _ _ w
    cancels-dispatch b (writing t) (write_event e) w = cancels-after_write _ _ w
    cancels-dispatch b p e w = refl

    -- No handler of the worker cancels its socket.
    pub cancels-on_event :
        (b : Bool) (e : WorkerEvent E.Code) (w : Worker P S)
        → cancels (on_event P S lib msgs setup b e w).calls ≡ cancels w.calls
    unfolding on_event
    cancels-on_event b e w = cancels-dispatch b w.pending e w
