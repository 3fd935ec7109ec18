-- ===== src/Read/Header/Loop.antt =====
-- read_header_op as a read loop: what it reports, and when it ends.
use http_io.Asio.{is_completed}
use http_io.Common.{ℕ, ◌%◌, ◌≡◌, true, false, List, ◌∷◌, ◌++◌, arith}
use http_io.System.{ErrorCodes, size_mod, add_size}
use http_io.Asio.{complete}
use http_io.Parser.{Parser, IsLawful}
use http_io.Read.{ReadOp, Event, arrival, run}
use http_io.Read.Run.{AllReads}
use http_io.Read.Loop.{IsEofEmpty, Fits, Works, IsCountingLoop, IsEndingLoop, received, run_reports}
use http_io.Read.Loop.Ending.{run_ends}
use http_io.Read.Header.{parsed, arrived, read_header_op, async_read_header}
use http_io.Read.Header.Laws.{read_header_op-suspended, read_header_op-posted}

module _ (E : ErrorCodes) (P : Parser E) where
  module _ (op : ReadOp) (p : P.State) (c : E.Code) (n : ℕ) where
    arrived-counts : (arrived E P op p c n).op.total_bytes ≡ add_size op.total_bytes n
    unfolding arrived parsed
    arrived-counts = ground arith

    arrived-Fits : Fits E P (arrived E P op p c n).action (arrived E P op p c n).op
    unfolding arrived parsed
    arrived-Fits = ground arith

    arrived-Works :
        (E.is_eof c ≡ true → n ≡ 0)
        → Works E P (arrived E P op p c n).action (arrived E P op p c n).op
    unfolding arrived parsed
    arrived-Works h = ground arith

    arrived-ends :
        IsLawful E P
        → (E.is_eof c ≡ true → n ≡ 0)
        → E.failed c ≡ true
        → is_completed (arrived E P op p c n).action ≡ true
    unfolding arrived parsed
    arrived-ends L h bad = ground (arith, L.eof_decides (P.commit n p) E.success)

  pub read_header_op-IsCountingLoop : IsCountingLoop E P (read_header_op E P)
  read_header_op-IsCountingLoop = record {
    counts = λ op p c n h. rw (read_header_op-suspended E P op p c n h) (arrived-counts op p c n);
    keeps_count = λ op p c n h. rw (read_header_op-posted E P op p c n h);
    fits_posted = λ op p c n h. rw (read_header_op-posted E P op p c n h);
    fits_arrived =
        λ op p c n h. rw (read_header_op-suspended E P op p c n h) (arrived-Fits op p c n);
  }

  read_header_op-IsEndingLoop : IsLawful E P → IsEndingLoop E P (read_header_op E P)
  read_header_op-IsEndingLoop L = record {
    works = λ op p c n h. rw (read_header_op-suspended E P op p c n h) (arrived-Works op p c n);
    ends = λ op p c n h. rw (read_header_op-suspended E P op p c n h) (arrived-ends op p c n L);
  }

  pub begun-Fits :
      (p : P.State) → Fits E P (async_read_header E P p).action (async_read_header E P p).op
  unfolding async_read_header
  begun-Fits p = ground arith

  begun-zero : (p : P.State) → (async_read_header E P p).op.total_bytes ≡ 0
  unfolding async_read_header
  begun-zero p = ground arith

  begun-Works :
      (p : P.State)
      → P.got_header p ≡ false
      → Works E P (async_read_header E P p).action (async_read_header E P p).op
  unfolding async_read_header
  begun-Works p h = ground arith

  -- When `async_read_header` completes, it reports the number of bytes of the stream that it has
  -- received, modulo 2 ^ 64.
  pub async_read_header_count :
      (p : P.State) (es : List (Event E.Code)) (c : E.Code) (n : ℕ)
      → (run E P (read_header_op E P) (async_read_header E P p) es).action ≡ complete c n
      → n ≡ received E P (read_header_op E P) (async_read_header E P p) es % size_mod
  async_read_header_count p es c n h =
      run_reports E P (read_header_op E P) read_header_op-IsCountingLoop (async_read_header E P p)
        es c n (begun-Fits p) (begun-zero p) h

  -- With a lawful parser that lacks the header, `async_read_header` has completed by the first
  -- read that fails, whatever came before, if the reads that end the stream bring no bytes.
  pub async_read_header_ends :
      IsLawful E P
      → (p : P.State) (ds es : List (Event E.Code)) (c : E.Code) (bytes : List ℕ)
      → P.got_header p ≡ false
      → AllReads (IsEofEmpty E) ds
      → IsEofEmpty E c bytes
      → E.failed c ≡ true
      → is_completed
          (run E P
            (read_header_op E P)
            (async_read_header E P p)
            (ds ++ arrival c bytes ∷ es)).action
        ≡ true
  async_read_header_ends L p ds es c bytes h q end bad =
      run_ends E P (read_header_op E P) (read_header_op-IsEndingLoop L) (async_read_header E P p) ds
        es c bytes (begun-Works p h) q end bad
