-- ===== src/Read/Keeps.antt =====
-- What each operation of the parser keeps, the reads keep.
use http_io.Common.{ℕ, List, [], ◌∷◌, length}
use http_io.System.{ErrorCodes}
use http_io.Asio.{Action, post, initiate, complete, ended, assert_failed}
use http_io.Parser.{Parser, IsKeptByReads}
use http_io.Read.{ReadOp, ReadSome, Turn, Event, run_posted, arrival, Call, deliver, run}

module _ (E : ErrorCodes) (P : Parser E) (Q : P.State → Type 0) (K : IsKeptByReads P Q) where
  pub deliver-keeps :
      (call : Call E P)
      → ((op : ReadOp) (p : P.State) (c : E.Code) (n : ℕ) → Q p → Q (call op p c n).parser)
      → (a : Action E.Code ReadSome) (t : Turn E P) (e : Event E.Code) → Q t.parser
      → Q (deliver E P call a t e).parser
  unfolding deliver
  deliver-keeps call keep (post c n) t run_posted q = keep t.op t.parser c n q
  deliver-keeps call keep (initiate r) t (arrival c bytes) q =
      keep t.op _ c (length bytes) (K.store_keeps bytes t.parser q)
  deliver-keeps call keep (post c n) t (arrival d bytes) q = q
  deliver-keeps call keep (initiate r) t run_posted q = q
  deliver-keeps call keep (complete c n) t e q = q
  deliver-keeps call keep ended t e q = q
  deliver-keeps call keep assert_failed t e q = q

  pub run-keeps :
      (call : Call E P)
      → ((op : ReadOp) (p : P.State) (c : E.Code) (n : ℕ) → Q p → Q (call op p c n).parser)
      → (t : Turn E P) (es : List (Event E.Code)) → Q t.parser
      → Q (run E P call t es).parser
  unfolding run
  run-keeps call keep t [] q = q
  run-keeps call keep t (e ∷ es) q =
      run-keeps call keep (deliver E P call t.action t e) es
        (deliver-keeps call keep t.action t e q)
