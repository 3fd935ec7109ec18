-- ===== src/Read/Header/Laws.antt =====
-- When the header has been read.
use http_io.Common.{ℕ, ◌≡◌, ◌∙◌, true, false, List, arith, length}
use http_io.System.{ErrorCodes, add_size}
use http_io.Asio.{Action, post, initiate, complete, ended, assert_failed, Point, posted, suspended}
use http_io.Parser.{Parser, IsLawful}
use http_io.Read.{ReadOp, ReadSome, Turn, upcall, Event, arrival, deliver, run}
use http_io.Read.Run.{AnyRead, AllReads-any, run-Inv}
use http_io.Read.Header.{parsed, arrived, resume, read_header_op, async_read_header}

module _ (E : ErrorCodes) (P : Parser E) (op : ReadOp) (p : P.State) (c : E.Code) (n : ℕ) where
  pub read_header_op-suspended :
      op.point ≡ suspended → read_header_op E P op p c n ≡ arrived E P op p c n
  unfolding read_header_op
  read_header_op-suspended h = rw (h, resume)

  pub read_header_op-posted :
      op.point ≡ posted → read_header_op E P op p c n ≡ upcall E P op.total_bytes p c
  unfolding read_header_op
  read_header_op-posted h = rw (h, resume)

module _ (E : ErrorCodes) (P : Parser E) (L : IsLawful E P) where
  open E use {Code, success, failed}

  abbrev pub Sound : Action Code ReadSome → Point → P.State → Type 0
  Sound (post ec n) at p = (at ≡ posted) × (P.got_header p ≡ true)
  Sound (initiate r) at p = at ≡ suspended
  Sound (complete ec n) at p = failed ec ≡ false → P.got_header p ≡ true
  Sound ended at p = Unit
  Sound assert_failed at p = Unit

  abbrev pub IsSound : Turn E P → Type 0
  IsSound t = Sound t.action t.op.point t.parser

  parsed-IsSound : (total : ℕ) (p : P.State) (c : Code) → IsSound (parsed E P total (P.parse p c))
  unfolding parsed
  parsed-IsSound total p c =
      ground (arith, L.complete_of_parse p c, L.header_of_complete (P.parse p c).0)

  arrived-IsSound : (op : ReadOp) (p : P.State) (c : Code) (n : ℕ) → IsSound (arrived E P op p c n)
  unfolding arrived
  arrived-IsSound op p c n =
      let total = add_size op.total_bytes n in
      ground (
        arith,
        parsed-IsSound total (P.commit n p) c,
        parsed-IsSound total (P.commit_eof (P.commit n p)) success,
        E.failed_of_eof c,
      )

  pub begun-IsSound : (p : P.State) → IsSound (async_read_header E P p)
  unfolding async_read_header
  begun-IsSound p = ground arith

  pub run-IsSound :
      (t : Turn E P) (es : List (Event Code))
      → IsSound t
      → IsSound (run E P (read_header_op E P) t es)
  run-IsSound t es i =
      run-Inv E P (read_header_op E P) AnyRead IsSound
        (λ t c n e s.
          let s' : Sound (post c n) t.op.point t.parser = rw e at s in
          rw (read_header_op-posted E P t.op t.parser c n s'.0) (λ _. s'.1))
        (λ t r c bytes _ e s.
          let s' : Sound (initiate r) t.op.point t.parser = rw e at s in
          rw (read_header_op-suspended E P t.op _ c _ s') (arrived-IsSound t.op _ c _))
        t es (AllReads-any es) i

  -- With a lawful parser, whatever events drive it, `async_read_header` completes without an error
  -- only with a parser that has got the header.
  pub async_read_header-got_header :
      (p : P.State) (es : List (Event Code)) (ec : Code) (n : ℕ)
      → (run E P (read_header_op E P) (async_read_header E P p) es).action ≡ complete ec n
      → failed ec ≡ false
      → P.got_header (run E P (read_header_op E P) (async_read_header E P p) es).parser ≡ true
  async_read_header-got_header p es ec n e ok =
      (rw e at (run-IsSound (async_read_header E P p) es (begun-IsSound p))) ok

module _ (E : ErrorCodes) (P : Parser E) where
  arrived-error :
      (op : ReadOp) (p : P.State) (c : E.Code) (n : ℕ)
      → E.failed c ≡ true
      → E.is_eof c ≡ false
      → arrived E P op p c n ≡ upcall E P (add_size op.total_bytes n) (P.commit n p) c
  unfolding arrived
  arrived-error op p c n bad e = ground arith

  deliver-initiate :
      (a : Action E.Code ReadSome) (t : Turn E P) (r : ReadSome) (c : E.Code) (bytes : List ℕ)
      → a ≡ initiate r
      → deliver E P (read_header_op E P) a t (arrival c bytes)
        ≡ read_header_op E P t.op (P.store bytes t.parser) c (length bytes)
  unfolding deliver
  deliver-initiate a t r c bytes h = rw (h, deliver)

  -- An error of the stream, the end apart, ends a pending operation.
  pub deliver-error :
      (t : Turn E P) (r : ReadSome) (c : E.Code) (bytes : List ℕ)
      → t.action ≡ initiate r
      → t.op.point ≡ suspended
      → E.failed c ≡ true
      → E.is_eof c ≡ false
      → deliver E P (read_header_op E P) t.action t (arrival c bytes)
        ≡ upcall E P
            (add_size t.op.total_bytes (length bytes))
            (P.commit (length bytes) (P.store bytes t.parser))
            c
  deliver-error t r c bytes h at bad e =
      deliver-initiate t.action t r c bytes h
      ∙ read_header_op-suspended E P t.op (P.store bytes t.parser) c (length bytes) at
      ∙ arrived-error t.op (P.store bytes t.parser) c (length bytes) bad e
