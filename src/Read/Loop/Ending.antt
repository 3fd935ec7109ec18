-- ===== src/Read/Loop/Ending.antt =====
-- A loop that ends at a read that fails, and whose assertions hold.
use http_io.Asio.{is_completed}
use http_io.Common.{ℕ, ◌≡◌, refl, ap, true, List, ◌∷◌, ◌++◌}
use http_io.System.{ErrorCodes}
use http_io.Asio.{Action, post, initiate, complete, ended, assert_failed}
use http_io.Parser.{Parser}
use http_io.Read.{ReadSome, Turn, Event, arrival, Call, deliver, run}
use http_io.Read.Run.{AllReads, run-append, run-Inv}
use http_io.Read.Loop.{IsEofEmpty, Works, IsEndingLoop, run-completed_still}

module _ (E : ErrorCodes) (P : Parser E) where
  module _ (call : Call E P) (R : IsEndingLoop E P call) where
    abbrev IsWorking : Turn E P → Type 0
    IsWorking t = Works E P t.action t.op

    run-Works :
        (t : Turn E P) (es : List (Event E.Code))
        → AllReads (IsEofEmpty E) es
        → IsWorking t
        → IsWorking (run E P call t es)
    run-Works t es q w =
        run-Inv E P call (IsEofEmpty E) IsWorking
          (λ t c n e w. absurd (let w' : Works E P (post c n) t.op = rw e at w in w'))
          (λ t r c bytes q e w. R.works t.op _ c _ (rw e at w) q) t es q w

    -- A working operation ends at the first read that fails.
    ends_at :
        (a : Action E.Code ReadSome) (t : Turn E P) (c : E.Code) (bytes : List ℕ)
        → t.action ≡ a
        → Works E P a t.op
        → IsEofEmpty E c bytes
        → E.failed c ≡ true
        → is_completed (deliver E P call a t (arrival c bytes)).action ≡ true
    unfolding deliver
    ends_at (post d n) t c bytes h w q bad = absurd w
    ends_at (initiate r) t c bytes h w q bad = R.ends t.op _ c _ w q bad
    ends_at (complete d n) t c bytes h w q bad = ap is_completed h
    ends_at ended t c bytes h w q bad = absurd w
    ends_at assert_failed t c bytes h w q bad = absurd w

    pub run_ends :
        (t : Turn E P) (ds es : List (Event E.Code)) (c : E.Code) (bytes : List ℕ)
        → IsWorking t
        → AllReads (IsEofEmpty E) ds
        → IsEofEmpty E c bytes
        → E.failed c ≡ true
        → is_completed (run E P call t (ds ++ arrival c bytes ∷ es)).action ≡ true
    unfolding run
    run_ends t ds es c bytes w q end bad =
        let t' = run E P call t ds in
        rw (run-append E P call t ds (arrival c bytes ∷ es)) (
          run-completed_still E P call (deliver E P call t'.action t' (arrival c bytes)) es
            (ends_at t'.action t' c bytes refl (run-Works t ds q w) end bad))
