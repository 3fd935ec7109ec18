-- ===== src/Read/Input.antt =====
-- What the operations that read give to the parser.
use mathlib.Core.List.{append_assoc, append-nil}
use http_io.Common.{ℕ, ◌≡◌, refl, sym, ap, ◌∙◌, Bool, List, [], ◌∷◌, ◌++◌, length}
use http_io.System.{ErrorCodes}
use http_io.Asio.{Action, post, initiate, complete, ended, assert_failed, posted, suspended}
use http_io.Parser.{Parser, IsRecording}
use http_io.Read.{ReadOp, ReadSome, Turn, Event, run_posted, arrival, Call, deliver, run}
use http_io.Read.Loop.{Fits, IsCountingLoop}

module _ (E : ErrorCodes) (P : Parser E) where
  abbrev heard_of : Action E.Code ReadSome → Event E.Code → List ℕ
  heard_of (initiate r) (arrival c bytes) = bytes
  heard_of _ _ = []

  -- The bytes of the reads that reach an operation.
  abbrev pub heard : Call E P → Turn E P → List (Event E.Code) → List ℕ
  heard call t [] = []
  heard call t (e ∷ es) = heard_of t.action e ++ heard call (deliver E P call t.action t e) es

  module _ (is_whole : List ℕ → Bool) (I : IsRecording P is_whole) where
    open I use {input}

    -- A call behind a read commits its bytes, and no other call commits any.
    pub record IsCommitting (call : Call E P) : Type 0 where
      pub commits :
          (op : ReadOp) (p : P.State) (c : E.Code) (n : ℕ)
          → op.point ≡ suspended
          → input (call op p c n).parser ≡ input (P.commit n p)
      pub keeps :
          (op : ReadOp) (p : P.State) (c : E.Code) (n : ℕ)
          → op.point ≡ posted
          → input (call op p c n).parser ≡ input p

    module _ (call : Call E P) (C : IsCountingLoop E P call) (M : IsCommitting call) where
      deliver-hears :
          (a : Action E.Code ReadSome) (t : Turn E P) (e : Event E.Code)
          → Fits E P a t.op
          → input (deliver E P call a t e).parser ≡ input t.parser ++ heard_of a e
      unfolding deliver
      deliver-hears (post c n) t run_posted f =
          M.keeps t.op t.parser c n f ∙ sym (append-nil (input t.parser))
      deliver-hears (initiate r) t (arrival c bytes) f =
          M.commits t.op (P.store bytes t.parser) c (length bytes) f ∙ I.input-commit bytes t.parser
      deliver-hears (post c n) t (arrival d bytes) f = sym (append-nil (input t.parser))
      deliver-hears (initiate r) t run_posted f = sym (append-nil (input t.parser))
      deliver-hears (complete c n) t e f = sym (append-nil (input t.parser))
      deliver-hears ended t e f = sym (append-nil (input t.parser))
      deliver-hears assert_failed t e f = sym (append-nil (input t.parser))

      deliver-Fits :
          (a : Action E.Code ReadSome) (t : Turn E P) (e : Event E.Code)
          → t.action ≡ a
          → Fits E P a t.op
          → Fits E P (deliver E P call a t e).action (deliver E P call a t e).op
      unfolding deliver
      deliver-Fits (post c n) t run_posted h f = C.fits_posted t.op t.parser c n f
      deliver-Fits (initiate r) t (arrival c bytes) h f = C.fits_arrived t.op _ c (length bytes) f
      deliver-Fits (post c n) t (arrival d bytes) h f = rw h f
      deliver-Fits (initiate r) t run_posted h f = rw h f
      deliver-Fits (complete c n) t e h f = rw h f
      deliver-Fits ended t e h f = absurd f
      deliver-Fits assert_failed t e h f = rw h f

      pub run-hears :
          (t : Turn E P) (es : List (Event E.Code))
          → Fits E P t.action t.op
          → input (run E P call t es).parser ≡ input t.parser ++ heard call t es
      unfolding run
      run-hears t [] f = sym (append-nil (input t.parser))
      run-hears t (e ∷ es) f =
          let t' = deliver E P call t.action t e in
          run-hears t' es (deliver-Fits t.action t e refl f)
          ∙ ap (λ s. s ++ heard call t' es) (deliver-hears t.action t e f)
          ∙ append_assoc (input t.parser) (heard_of t.action e) (heard call t' es)
