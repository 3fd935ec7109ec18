-- ===== src/Read/Body/Input.antt =====
-- What a read of a body gives to the parser.
use http_io.Common.{ℕ, ◌≡◌, ap, ◌∙◌, Bool, List, ◌++◌, arith}
use http_io.System.{ErrorCodes}
use http_io.Parser.{Parser, IsRecording}
use http_io.Read.{ReadOp, Event, run}
use http_io.Read.Input.{heard, IsCommitting, run-hears}
use http_io.Read.Body.{parsed, arrived, read_body_op, begin_body}
use http_io.Read.Body.Laws.{read_body_op-suspended, read_body_op-posted}
use http_io.Read.Body.Loop.{read_body_op-IsCountingLoop, begun-Fits}

module _ (E : ErrorCodes) (P : Parser E) (is_whole : List ℕ → Bool)
    (I : IsRecording P is_whole) where
  open I use {input}

  body-arrived :
      (some_ : Bool) (op : ReadOp) (p : P.State) (c : E.Code) (n : ℕ)
      → input (arrived E P some_ op p c n).parser ≡ input (P.commit n p)
  unfolding arrived parsed
  body-arrived some_ op p c n =
      let p' = P.commit n p in
      ground (
        arith,
        I.input-parse p' c,
        I.input-parse (P.commit_eof p') E.success,
        I.input-commit_eof p',
        I.input-prepare (P.parse p' c).0,
        I.input-prepare (P.parse (P.commit_eof p') E.success).0,
      )

  body-IsCommitting : (some_ : Bool) → IsCommitting E P is_whole I (read_body_op E P some_)
  body-IsCommitting some_ = record {
    commits = λ op p c n h.
        rw (read_body_op-suspended E P some_ op p c n h) (body-arrived some_ op p c n);
    keeps = λ op p c n h. rw (read_body_op-posted E P some_ op p c n h) (I.input-parse p c);
  }

  begun_body-input : (some_ : Bool) (p : P.State) → input (begin_body E P some_ p).parser ≡ input p
  unfolding begin_body
  begun_body-input some_ p = ground (arith, I.input-prepare p)

  -- The parser gets the bytes of the reads that reach the operation.
  pub read_body-hears :
      (some_ : Bool) (p : P.State) (es : List (Event E.Code))
      → input (run E P (read_body_op E P some_) (begin_body E P some_ p) es).parser
        ≡ input p ++ heard E P (read_body_op E P some_) (begin_body E P some_ p) es
  read_body-hears some_ p es =
      run-hears E P is_whole I (read_body_op E P some_) (read_body_op-IsCountingLoop E P some_)
        (body-IsCommitting some_) (begin_body E P some_ p) es (begun-Fits E P some_ p)
      ∙ ap (λ s. s ++ heard E P (read_body_op E P some_) (begin_body E P some_ p) es)
          (begun_body-input some_ p)
