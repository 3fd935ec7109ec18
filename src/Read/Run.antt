-- ===== src/Read/Run.antt =====
-- How to reason about every event sequence that drives a read operation.
use http_io.Common.{ℕ, ◌≡◌, refl, List, [], ◌∷◌, ◌++◌, length}
use http_io.System.{ErrorCodes}
use http_io.Asio.{Action, post, initiate, complete, ended, assert_failed}
use http_io.Parser.{Parser}
use http_io.Read.{ReadSome, Turn, Event, run_posted, arrival, Call, deliver, run}

-- Each completed read of a sequence of events is of a certain kind.
abbrev pub AllReads : {C : Type 0} → (C → List ℕ → Type 0) → List (Event C) → Type 0
AllReads Q [] = Unit
AllReads Q (run_posted ∷ es) = AllReads Q es
AllReads Q (arrival c bytes ∷ es) = Q c bytes × AllReads Q es

abbrev pub AnyRead : {C : Type 0} → C → List ℕ → Type 0
AnyRead c bytes = Unit

pub AllReads-any : {C : Type 0} (es : List (Event C)) → AllReads AnyRead es
AllReads-any [] = tt
AllReads-any (run_posted ∷ es) = AllReads-any es
AllReads-any (arrival c bytes ∷ es) = (tt, AllReads-any es)

-- A row of reads, as events.
abbrev pub reads : {C : Type 0} → List (C × List ℕ) → List (Event C)
reads [] = []
reads ((c, bytes) ∷ ds) = arrival c bytes ∷ reads ds

module _ (E : ErrorCodes) (P : Parser E) (call : Call E P) where
  deliver-complete :
      (a : Action E.Code ReadSome) (t : Turn E P) (c : E.Code) (n : ℕ) (e : Event E.Code)
      → a ≡ complete c n
      → deliver E P call a t e ≡ t
  unfolding deliver
  deliver-complete a t c n e h = rw (h, deliver)

  pub run-complete :
      (t : Turn E P) (c : E.Code) (n : ℕ) (es : List (Event E.Code))
      → t.action ≡ complete c n
      → run E P call t es ≡ t
  unfolding run
  run-complete t c n [] h = refl
  run-complete t c n (e ∷ es) h = rw (deliver-complete t.action t c n e h) (run-complete t c n es h)

  pub run-single :
      (t : Turn E P) (e : Event E.Code) → run E P call t (e ∷ []) ≡ deliver E P call t.action t e
  unfolding run
  run-single t e = refl

  pub run-append :
      (t : Turn E P) (ds es : List (Event E.Code))
      → run E P call t (ds ++ es) ≡ run E P call (run E P call t ds) es
  unfolding run
  run-append t [] es = refl
  run-append t (d ∷ ds) es = run-append (deliver E P call t.action t d) ds es

  -- What holds of a turn and is kept by the two kinds of call holds after any events.
  module _ {κ} (Q : E.Code → List ℕ → Type 0) (Inv : Turn E P → Type κ)
      (by_post : (t : Turn E P) (c : E.Code) (n : ℕ)
        → t.action ≡ post c n
        → Inv t
        → Inv (call t.op t.parser c n))
      (by_arrival : (t : Turn E P) (r : ReadSome) (c : E.Code) (bytes : List ℕ)
        → Q c bytes
        → t.action ≡ initiate r
        → Inv t
        → Inv (call t.op (P.store bytes t.parser) c (length bytes))) where
    deliver-Inv :
        (a : Action E.Code ReadSome) (t : Turn E P) (e : Event E.Code)
        → AllReads Q (e ∷ [])
        → t.action ≡ a
        → Inv t
        → Inv (deliver E P call a t e)
    unfolding deliver
    deliver-Inv (post c n) t run_posted q h i = by_post t c n h i
    deliver-Inv (post c n) t (arrival d bytes) q h i = i
    deliver-Inv (initiate r) t run_posted q h i = i
    deliver-Inv (initiate r) t (arrival d bytes) q h i = by_arrival t r d bytes q.0 h i
    deliver-Inv (complete c n) t e q h i = i
    deliver-Inv ended t e q h i = i
    deliver-Inv assert_failed t e q h i = i

    pub run-Inv :
        (t : Turn E P) (es : List (Event E.Code)) → AllReads Q es → Inv t → Inv (run E P call t es)
    unfolding run
    run-Inv t [] q i = i
    run-Inv t (run_posted ∷ es) q i =
        run-Inv (deliver E P call t.action t run_posted) es q
          (deliver-Inv t.action t run_posted tt refl i)
    run-Inv t (arrival c bytes ∷ es) q i =
        run-Inv (deliver E P call t.action t (arrival c bytes)) es q.1
          (deliver-Inv t.action t (arrival c bytes) (q.0, tt) refl i)
