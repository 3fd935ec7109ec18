-- ===== src/Server/Worker/Drain.antt =====
-- A worker whose operations are cancelled comes to rest.
use http_io.Common.{ℕ, ◌≡◌, ap, Bool, true, false}
use http_io.System.{ErrorCodes}
use http_io.Asio.{Action, initiate, complete, suspended}
use http_io.Parser.{Parser}
use http_io.Serializer.{Serializer, Buffers}
use http_io.Read
use http_io.Read.{Turn, ReadSome, read_some, ReadOp, upcall}
use http_io.Read.Header.Laws.{deliver-error as header_error}
use http_io.Read.Body.Laws.{deliver-error as body_error}
use http_io.Write
use http_io.Write.All.Progress.{deliver-error as write_error}
use http_io.Write.All.{Session, WriteSome, async_write}
use http_io.Write.All
use http_io.Server.Request.{Libraries}
use http_io.Server.Worker.{
  Messages, Setup, WorkerEvent, accepted, read_event, write_event, Pending, idle, accepting,
  reading_header, reading_body, writing, Worker, give_up, on_accept, on_read_header, on_read_body,
  on_write, after_header, after_body, after_write, dispatch, on_event,
}

module _ {E : ErrorCodes} (P : Parser E) (S : Serializer E) where
  give_up-idle :
      (ec : E.Code) (w : Worker P S) → E.is_aborted ec ≡ true → (give_up P S ec w).pending ≡ idle
  unfolding give_up
  give_up-idle ec w h = rw h

  -- The event is the completion of what the worker waits for, with operation_aborted.
  abbrev pub IsCancelled : Pending P S → WorkerEvent E.Code → Type 0
  IsCancelled accepting (accepted c) = E.is_aborted c ≡ true
  IsCancelled (reading_header t) (read_event (Read.Event.arrival c bytes)) =
      (E.is_aborted c ≡ true) × (t.action ≡ initiate read_some) × (t.op.point ≡ suspended)
  IsCancelled (reading_body t) (read_event (Read.Event.arrival c bytes)) =
      (E.is_aborted c ≡ true) × (t.action ≡ initiate read_some) × (t.op.point ≡ suspended)
  IsCancelled (writing s) (write_event (Write.Event.written c k)) =
      (E.is_aborted c ≡ true)
      × (s.action ≡ initiate All.write_some)
      × (s.op.point ≡ suspended)
      × ((bs : Buffers) × (s.some_turn.action ≡ initiate bs) × (s.some_turn.point ≡ suspended))
  IsCancelled p e = ⊥

  after_header-idle :
      (a : Action E.Code ReadSome) (t : Turn E P) (w : Worker P S) (c : E.Code) (n : ℕ)
      → a ≡ complete c n
      → E.is_aborted c ≡ true
      → (after_header P S a t w).pending ≡ idle
  unfolding after_header on_read_header
  after_header-idle a t w c n h ab =
      rw (h, after_header, E.failed_of_aborted c ab) (give_up-idle c _ ab)

  module _ (lib : Libraries E) (msgs : Messages P S) (setup : Setup) (b : Bool) where
    after_body-idle :
        (a : Action E.Code ReadSome) (t : Turn E P) (w : Worker P S) (c : E.Code) (n : ℕ)
        → a ≡ complete c n
        → E.is_aborted c ≡ true
        → (after_body P S lib msgs setup b a t w).pending ≡ idle
    unfolding after_body on_read_body
    after_body-idle a t w c n h ab =
        rw (h, after_body, E.failed_of_aborted c ab) (give_up-idle c _ ab)

    after_write-idle :
        (a : Action E.Code WriteSome) (s : Session E S) (w : Worker P S) (c : E.Code) (n : ℕ)
        → a ≡ complete c n
        → E.is_aborted c ≡ true
        → (after_write P S lib msgs setup a s w).pending ≡ idle
    unfolding after_write on_write
    after_write-idle a s w c n h ab =
        rw (h, after_write, E.failed_of_aborted c ab) (give_up-idle c _ ab)

    dispatch-idle :
        (p : Pending P S) (e : WorkerEvent E.Code) (w : Worker P S)
        → IsCancelled p e
        → (dispatch P S lib msgs setup b p e w).pending ≡ idle
    unfolding dispatch on_accept
    dispatch-idle accepting (accepted c) w h = rw (E.failed_of_aborted c h) (give_up-idle c w h)
    dispatch-idle (reading_header t) (read_event (Read.Event.arrival c bytes)) w (ab, a, at) =
        let done =
          header_error E P t read_some c bytes a at (E.failed_of_aborted c ab)
            (E.eof_of_aborted c ab) in
        after_header-idle _ _ w c _ (ap (λ u. u.action) done) ab
    dispatch-idle (reading_body t) (read_event (Read.Event.arrival c bytes)) w (ab, a, at) =
        let done =
          body_error E P false t read_some c bytes a at (E.failed_of_aborted c ab)
            (E.eof_of_aborted c ab) in
        after_body-idle _ _ w c _ (ap (λ u. u.action) done) ab
    dispatch-idle (writing s) (write_event (Write.Event.written c k)) w (ab, a, at, (bs, sa, sat)) =
        after_write-idle _ _ w c _ (write_error E S s c k bs a at sa sat (E.failed_of_aborted c ab))
          ab
    dispatch-idle p e w h = absurd h

    -- When the accept, the read or the write that a worker waits for is cancelled, the worker starts
    -- nothing new.
    pub on_event-idle :
        (e : WorkerEvent E.Code) (w : Worker P S)
        → IsCancelled w.pending e
        → (on_event P S lib msgs setup b e w).pending ≡ idle
    unfolding on_event
    on_event-idle e w h = dispatch-idle w.pending e w h
