-- ===== src/Read/Body/Loop.antt =====
-- read_body_op as a read loop: what it reports, and when it ends.
use http_io.Asio.{is_completed}
use http_io.Common.{ℕ, ◌%◌, ◌≡◌, Bool, true, false, List, ◌∷◌, ◌++◌, arith}
use http_io.System.{ErrorCodes, size_mod, add_size}
use http_io.Asio.{complete}
use http_io.Parser.{Parser, IsLawful}
use http_io.Read.{ReadOp, Turn, Event, arrival, run}
use http_io.Read.Run.{AllReads}
use http_io.Read.Loop.{IsEofEmpty, Fits, Works, IsCountingLoop, IsEndingLoop, received, run_reports}
use http_io.Read.Loop.Ending.{run_ends}
use http_io.Read.Body.{started, parsed, arrived, read_body_op, begin_body}
use http_io.Read.Body.Laws.{
  read_body_op-suspended, read_body_op-posted, async_body, async_body-started,
}

module _ (E : ErrorCodes) (P : Parser E) (some_ : Bool) where
  module _ (op : ReadOp) (p : P.State) (c : E.Code) (n : ℕ) where
    arrived-counts : (arrived E P some_ op p c n).op.total_bytes ≡ add_size op.total_bytes n
    unfolding arrived parsed
    arrived-counts = ground arith

    arrived-Fits : Fits E P (arrived E P some_ op p c n).action (arrived E P some_ op p c n).op
    unfolding arrived parsed
    arrived-Fits = ground arith

    arrived-Works :
        IsLawful E P
        → (E.is_eof c ≡ true → n ≡ 0)
        → Works E P (arrived E P some_ op p c n).action (arrived E P some_ op p c n).op
    unfolding arrived parsed
    arrived-Works L h = ground (
      arith,
      L.complete_of_parse (P.commit n p) c,
      L.complete_of_parse (P.commit_eof (P.commit n p)) E.success,
    )

    arrived-ends :
        IsLawful E P
        → (E.is_eof c ≡ true → n ≡ 0)
        → E.failed c ≡ true
        → is_completed (arrived E P some_ op p c n).action ≡ true
    unfolding arrived parsed
    arrived-ends L h bad = ground (
      arith,
      L.complete_of_parse (P.commit_eof (P.commit n p)) E.success,
      L.eof_decides (P.commit n p) E.success,
    )

  pub read_body_op-IsCountingLoop : IsCountingLoop E P (read_body_op E P some_)
  read_body_op-IsCountingLoop = record {
    counts =
        λ op p c n h. rw (read_body_op-suspended E P some_ op p c n h) (arrived-counts op p c n);
    keeps_count = λ op p c n h. rw (read_body_op-posted E P some_ op p c n h);
    fits_posted = λ op p c n h. rw (read_body_op-posted E P some_ op p c n h);
    fits_arrived =
        λ op p c n h. rw (read_body_op-suspended E P some_ op p c n h) (arrived-Fits op p c n);
  }

  read_body_op-IsEndingLoop : IsLawful E P → IsEndingLoop E P (read_body_op E P some_)
  read_body_op-IsEndingLoop L = record {
    works =
        λ op p c n h. rw (read_body_op-suspended E P some_ op p c n h) (arrived-Works op p c n L);
    ends = λ op p c n h. rw (read_body_op-suspended E P some_ op p c n h) (arrived-ends op p c n L);
  }

  pub begun-Fits :
      (p : P.State) → Fits E P (begin_body E P some_ p).action (begin_body E P some_ p).op
  unfolding begin_body
  begun-Fits p = ground arith

  begun-zero : (p : P.State) → (begin_body E P some_ p).op.total_bytes ≡ 0
  unfolding begin_body
  begun-zero p = ground arith

  begun-Works :
      (p : P.State)
      → P.is_complete p ≡ false
      → Works E P (begin_body E P some_ p).action (begin_body E P some_ p).op
  unfolding begin_body
  begun-Works p h = ground arith

  begun_count :
      (p : P.State) (es : List (Event E.Code)) (c : E.Code) (n : ℕ)
      → (run E P (read_body_op E P some_) (begin_body E P some_ p) es).action ≡ complete c n
      → n ≡ received E P (read_body_op E P some_) (begin_body E P some_ p) es % size_mod
  begun_count p es c n h =
      run_reports E P (read_body_op E P some_) read_body_op-IsCountingLoop (begin_body E P some_ p)
        es c n (begun-Fits p) (begun-zero p) h

  pub begun_ends :
      IsLawful E P
      → (p : P.State) (ds es : List (Event E.Code)) (c : E.Code) (bytes : List ℕ)
      → P.is_complete p ≡ false
      → AllReads (IsEofEmpty E) ds
      → IsEofEmpty E c bytes
      → E.failed c ≡ true
      → is_completed
          (run E P
            (read_body_op E P some_)
            (begin_body E P some_ p)
            (ds ++ arrival c bytes ∷ es)).action
        ≡ true
  begun_ends L p ds es c bytes h q end bad =
      run_ends E P (read_body_op E P some_) (read_body_op-IsEndingLoop L) (begin_body E P some_ p)
        ds es c bytes (begun-Works p h) q end bad

module _ (E : ErrorCodes) (P : Parser E) where
  -- When `async_read` or `async_read_some` completes, it reports the number of bytes of the stream
  -- that it has received, modulo 2 ^ 64.
  pub async_read_count :
      (some_ : Bool) (p : P.State) (t : Turn E P) (es : List (Event E.Code)) (c : E.Code) (n : ℕ)
      → async_body E P some_ p ≡ started t
      → (run E P (read_body_op E P some_) t es).action ≡ complete c n
      → n ≡ received E P (read_body_op E P some_) t es % size_mod
  async_read_count some_ p t es c n s =
      rw (async_body-started E P some_ p t s) (begun_count E P some_ p es c n)

  -- With a lawful parser that is not complete, `async_read` and `async_read_some` have completed by
  -- the first read that fails, whatever came before, if the reads that end the stream bring no
  -- bytes.
  pub async_read_ends :
      IsLawful E P
      → (some_ : Bool) (p : P.State) (t : Turn E P) (ds es : List (Event E.Code))
      → (c : E.Code) (bytes : List ℕ) → P.is_complete p ≡ false
      → async_body E P some_ p ≡ started t
      → AllReads (IsEofEmpty E) ds
      → IsEofEmpty E c bytes
      → E.failed c ≡ true
      → is_completed (run E P (read_body_op E P some_) t (ds ++ arrival c bytes ∷ es)).action ≡ true
  async_read_ends L some_ p t ds es c bytes h s q end bad =
      rw (async_body-started E P some_ p t s) (begun_ends E P some_ L p ds es c bytes h q end bad)
