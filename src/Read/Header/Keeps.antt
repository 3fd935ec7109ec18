-- ===== src/Read/Header/Keeps.antt =====
-- What each operation of the parser keeps, read_header_op keeps.
use http_io.Common.{ℕ, List, arith}
use http_io.System.{ErrorCodes, add_size}
use http_io.Asio.{Point, start, posted, suspended, terminated}
use http_io.Parser.{Parser, IsKeptByReads}
use http_io.Read.{ReadOp, Turn, Event, deliver, run}
use http_io.Read.Keeps.{deliver-keeps, run-keeps}
use http_io.Read.Header.{parsed, arrived, resume, read_header_op, async_read_header}

module _ (E : ErrorCodes) (P : Parser E) (Q : P.State → Type 0) (K : IsKeptByReads P Q) where
  parsed-keeps : (total : ℕ) (p : P.State) (c : E.Code) → Q p → Q (parsed E P total (p, c)).parser
  unfolding parsed
  parsed-keeps total p c q = ground (arith, K.prepare_keeps p)

  arrived-keeps :
      (op : ReadOp) (p : P.State) (c : E.Code) (n : ℕ) → Q p → Q (arrived E P op p c n).parser
  unfolding arrived
  arrived-keeps op p c n q =
      let total = add_size op.total_bytes n in
      let p' = P.commit n p in
      let q' = K.commit_keeps n p q in
      ground (
        arith,
        q',
        parsed-keeps total (P.parse (P.commit_eof p') E.success).0
            (P.parse (P.commit_eof p') E.success).1
            (K.parse_keeps (P.commit_eof p') E.success (K.commit_eof_keeps p' q')),
        parsed-keeps total (P.parse p' c).0 (P.parse p' c).1 (K.parse_keeps p' c q'),
      )

  resume-keeps :
      (at : Point) (op : ReadOp) (p : P.State) (c : E.Code) (n : ℕ)
      → Q p
      → Q (resume E P at op p c n).parser
  unfolding resume
  resume-keeps start op p c n q = ground (arith, K.prepare_keeps p)
  resume-keeps posted op p c n q = q
  resume-keeps suspended op p c n q = arrived-keeps op p c n q
  resume-keeps terminated op p c n q = q

  pub read_header_op-keeps :
      (op : ReadOp) (p : P.State) (c : E.Code) (n : ℕ)
      → Q p
      → Q (read_header_op E P op p c n).parser
  unfolding read_header_op
  read_header_op-keeps op p c n q = resume-keeps op.point op p c n q

  pub async_read_header-keeps : (p : P.State) → Q p → Q (async_read_header E P p).parser
  unfolding async_read_header
  async_read_header-keeps p q =
      read_header_op-keeps (record { point = start; total_bytes = 0 }) p E.success 0 q

  pub deliver_header-keeps :
      (t : Turn E P) (e : Event E.Code)
      → Q t.parser
      → Q (deliver E P (read_header_op E P) t.action t e).parser
  deliver_header-keeps t e q =
      deliver-keeps E P Q K (read_header_op E P) read_header_op-keeps t.action t e q

  pub run_header-keeps :
      (p : P.State) (es : List (Event E.Code))
      → Q p
      → Q (run E P (read_header_op E P) (async_read_header E P p) es).parser
  run_header-keeps p es q =
      run-keeps E P Q K (read_header_op E P) read_header_op-keeps (async_read_header E P p) es
        (async_read_header-keeps p q)
