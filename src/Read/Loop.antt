-- ===== src/Read/Loop.antt =====
-- What read_header_op and read_body_op have in common, as an interface, and its consequences for
-- every sequence of events: the completion and the count.
pub mod Ending
use http_io.Asio.{is_completed}
use http_io.Common.{
  ℕ, ◌+◌, ◌%◌, ◌<◌, ◌≡◌, refl, ap, ◌∙◌, ◌≢◌, Bool, true, false, List, [], ◌∷◌, ◌++◌, arith, length,
}
use http_io.System.{ErrorCodes, size_mod, add_size, add_size-add_size, add_size-lt, eq_add_size}
use http_io.Asio.{Action, post, initiate, complete, ended, assert_failed, posted, suspended}
use http_io.Parser.{Parser}
use http_io.Read.{ReadOp, ReadSome, Turn, Event, run_posted, arrival, Call, deliver, run}
use http_io.Read.Run.{AllReads, AnyRead, AllReads-any, run-complete, run-append, run-Inv}

-- A read that ends the stream brings no bytes: the first BOOST_ASSERT of the two loops.
abbrev pub IsEofEmpty : (E : ErrorCodes) → E.Code → List ℕ → Type 0
IsEofEmpty E c bytes = E.is_eof c ≡ true → length bytes ≡ 0

module _ (E : ErrorCodes) (P : Parser E) where
  -- A turn is as the action says: the coroutine is where it was suspended, and a completion
  -- reports the count.
  abbrev pub Fits : Action E.Code ReadSome → ReadOp → Type 0
  Fits (post c n) op = op.point ≡ posted
  Fits (initiate r) op = op.point ≡ suspended
  Fits (complete c n) op = n ≡ op.total_bytes
  Fits ended op = ⊥
  Fits assert_failed op = Unit

  -- The operation waits for the stream, or it has completed.
  abbrev pub Works : Action E.Code ReadSome → ReadOp → Type 0
  Works (post c n) op = ⊥
  Works (initiate r) op = op.point ≡ suspended
  Works (complete c n) op = Unit
  Works ended op = ⊥
  Works assert_failed op = ⊥

  pub record IsCountingLoop (call : Call E P) : Type 0 where
    pub counts :
        (op : ReadOp) (p : P.State) (c : E.Code) (n : ℕ)
        → op.point ≡ suspended
        → (call op p c n).op.total_bytes ≡ add_size op.total_bytes n
    pub keeps_count :
        (op : ReadOp) (p : P.State) (c : E.Code) (n : ℕ)
        → op.point ≡ posted
        → (call op p c n).op.total_bytes ≡ op.total_bytes
    pub fits_posted :
        (op : ReadOp) (p : P.State) (c : E.Code) (n : ℕ)
        → op.point ≡ posted
        → Fits (call op p c n).action (call op p c n).op
    pub fits_arrived :
        (op : ReadOp) (p : P.State) (c : E.Code) (n : ℕ)
        → op.point ≡ suspended
        → Fits (call op p c n).action (call op p c n).op

  pub record IsEndingLoop (call : Call E P) : Type 0 where
    pub works :
        (op : ReadOp) (p : P.State) (c : E.Code) (n : ℕ)
        → op.point ≡ suspended
        → (E.is_eof c ≡ true → n ≡ 0)
        → Works (call op p c n).action (call op p c n).op
    -- The end of the stream and any other error end the loop.
    pub ends :
        (op : ReadOp) (p : P.State) (c : E.Code) (n : ℕ)
        → op.point ≡ suspended
        → (E.is_eof c ≡ true → n ≡ 0)
        → E.failed c ≡ true
        → is_completed (call op p c n).action ≡ true

  module _ (call : Call E P) where
    -- The bytes of the reads that reach the operation.
    abbrev size : Action E.Code ReadSome → Event E.Code → ℕ
    size (initiate r) (arrival c bytes) = length bytes
    size _ _ = 0

    unfoldable pub received : Turn E P → List (Event E.Code) → ℕ
    received t [] = 0
    received t (e ∷ es) = size t.action e + received (deliver E P call t.action t e) es

    run-completed_of :
        (a : Action E.Code ReadSome) (t : Turn E P) (es : List (Event E.Code))
        → t.action ≡ a
        → is_completed a ≡ true
        → run E P call t es ≡ t
    run-completed_of (complete c n) t es h d = run-complete E P call t c n es h
    run-completed_of (post c n) t es h d = cc
    run-completed_of (initiate r) t es h d = cc
    run-completed_of ended t es h d = cc
    run-completed_of assert_failed t es h d = cc

    -- Nothing happens behind the completion.
    pub run-completed :
        (t : Turn E P) (es : List (Event E.Code))
        → is_completed t.action ≡ true
        → run E P call t es ≡ t
    run-completed t es d = run-completed_of t.action t es refl d

    pub run-completed_still :
        (t : Turn E P) (es : List (Event E.Code))
        → is_completed t.action ≡ true
        → is_completed (run E P call t es).action ≡ true
    run-completed_still t es d = rw (run-completed t es d) d

  module _ (call : Call E P) (R : IsCountingLoop call) where
    abbrev IsFit : Turn E P → Type 0
    IsFit t = Fits t.action t.op

    pub run-Fits :
        (t : Turn E P) (es : List (Event E.Code))
        → Fits t.action t.op
        → Fits (run E P call t es).action (run E P call t es).op
    run-Fits t es f =
        run-Inv E P call AnyRead IsFit (λ t c n e f. R.fits_posted t.op t.parser c n (rw e at f))
          (λ t r c bytes _ e f. R.fits_arrived t.op _ c _ (rw e at f)) t es (AllReads-any es) f

    deliver_count :
        (a : Action E.Code ReadSome) (t : Turn E P) (e : Event E.Code)
        → Fits a t.op
        → (m : ℕ)
        → add_size (deliver E P call a t e).op.total_bytes m
          ≡ add_size t.op.total_bytes (size call a e + m)
    unfolding deliver
    deliver_count (post c n) t run_posted f m =
        rw (R.keeps_count t.op t.parser c n f) (ap (add_size _) (omega arith))
    deliver_count (post c n) t (arrival d bytes) f m = ap (add_size _) (omega arith)
    deliver_count (initiate r) t run_posted f m = ap (add_size _) (omega arith)
    deliver_count (initiate r) t (arrival d bytes) f m =
        rw (R.counts t.op (P.store bytes t.parser) d (length bytes) f) (add_size-add_size _ _ _)
    deliver_count (complete c n) t e f m = ap (add_size _) (omega arith)
    deliver_count ended t e f m = absurd f
    deliver_count assert_failed t e f m = ap (add_size _) (omega arith)

    deliver-Fits :
        (t : Turn E P) (e : Event E.Code) → IsFit t → IsFit (deliver E P call t.action t e)
    unfolding run
    deliver-Fits t e f = run-Fits t (e ∷ []) f

    -- The count grows by the bytes received, modulo the size of the counter.
    pub run_count :
        (t : Turn E P) (es : List (Event E.Code)) (m : ℕ)
        → IsFit t
        → add_size (run E P call t es).op.total_bytes m
          ≡ add_size t.op.total_bytes (received call t es + m)
    unfolding run received
    run_count t [] m f = ap (add_size _) (omega arith)
    run_count t (e ∷ es) m f =
        run_count (deliver E P call t.action t e) es m (deliver-Fits t e f)
        ∙ deliver_count t.action t e f _
        ∙ ap (add_size _) (omega arith)

    abbrev IsCounting : Turn E P → Type 0
    IsCounting t = Fits t.action t.op × (t.op.total_bytes < size_mod)

    run-IsCounting :
        (t : Turn E P) (es : List (Event E.Code)) → IsCounting t → IsCounting (run E P call t es)
    run-IsCounting t es f =
        run-Inv E P call AnyRead IsCounting
          (λ t c n e (f, b).
            let f' : Fits (post c n) t.op = rw e at f in
            (R.fits_posted t.op t.parser c n f', rw (R.keeps_count t.op t.parser c n f') b))
          (λ t r c bytes _ e (f, b).
            let f' : Fits (initiate r) t.op = rw e at f in
            (
              R.fits_arrived t.op _ c _ f',
              rw (R.counts t.op (P.store bytes t.parser) c (length bytes) f') (add_size-lt _ _),
            ))
          t es (AllReads-any es) f

    -- A completion reports the number of bytes received, modulo the size of the counter.
    pub run_reports :
        (t : Turn E P) (es : List (Event E.Code)) (c : E.Code) (n : ℕ)
        → IsFit t
        → t.op.total_bytes ≡ 0
        → (run E P call t es).action ≡ complete c n
        → n ≡ received call t es % size_mod
    run_reports t es c n f z h =
        let counting = run-IsCounting t es (f, omega arith) in
        let counted : n ≡ (run E P call t es).op.total_bytes = rw h at counting.0 in
        rw counted (
          eq_add_size _ _ counting.1 (
            run_count t es 0 f
            ∙ ap (λ k. add_size k (received call t es + 0)) z
            ∙ ap (add_size 0) (omega arith)))
