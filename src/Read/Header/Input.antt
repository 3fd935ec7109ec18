-- ===== src/Read/Header/Input.antt =====
-- What async_read_header gives to the parser.
use http_io.Common.{ℕ, ◌≡◌, ap, ◌∙◌, Bool, List, ◌++◌, arith}
use http_io.System.{ErrorCodes}
use http_io.Parser.{Parser, IsRecording}
use http_io.Read.{ReadOp, Event, run}
use http_io.Read.Input.{heard, IsCommitting, run-hears}
use http_io.Read.Header.{parsed, arrived, read_header_op, async_read_header}
use http_io.Read.Header.Laws.{read_header_op-suspended, read_header_op-posted}
use http_io.Read.Header.Loop.{read_header_op-IsCountingLoop, begun-Fits}

module _ (E : ErrorCodes) (P : Parser E) (is_whole : List ℕ → Bool)
    (I : IsRecording P is_whole) where
  open I use {input}

  header-arrived :
      (op : ReadOp) (p : P.State) (c : E.Code) (n : ℕ)
      → input (arrived E P op p c n).parser ≡ input (P.commit n p)
  unfolding arrived parsed
  header-arrived op p c n =
      let p' = P.commit n p in
      ground (
        arith,
        I.input-parse p' c,
        I.input-parse (P.commit_eof p') E.success,
        I.input-commit_eof p',
        I.input-prepare (P.parse p' c).0,
        I.input-prepare (P.parse (P.commit_eof p') E.success).0,
      )

  header-IsCommitting : IsCommitting E P is_whole I (read_header_op E P)
  header-IsCommitting = record {
    commits = λ op p c n h. rw (read_header_op-suspended E P op p c n h) (header-arrived op p c n);
    keeps = λ op p c n h. rw (read_header_op-posted E P op p c n h);
  }

  begun_header-input : (p : P.State) → input (async_read_header E P p).parser ≡ input p
  unfolding async_read_header
  begun_header-input p = ground (arith, I.input-prepare p)

  -- The parser gets the bytes of the reads that reach the operation.
  pub read_header-hears :
      (p : P.State) (es : List (Event E.Code))
      → input (run E P (read_header_op E P) (async_read_header E P p) es).parser
        ≡ input p ++ heard E P (read_header_op E P) (async_read_header E P p) es
  read_header-hears p es =
      run-hears E P is_whole I (read_header_op E P) (read_header_op-IsCountingLoop E P)
        header-IsCommitting (async_read_header E P p) es (begun-Fits E P p)
      ∙ ap (λ s. s ++ heard E P (read_header_op E P) (async_read_header E P p) es)
          (begun_header-input p)
