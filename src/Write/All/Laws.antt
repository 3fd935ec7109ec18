-- ===== src/Write/All/Laws.antt =====
-- async_write puts the message on the wire.
use mathlib.Core.List.{append-nil}
use http_io.Common.{
  ℕ, ◌%◌, ◌≤◌, ◌≡◌, refl, sym, ap, subst, ◌∙◌, ◌⊎◌, inl, inr, true, List, [], ◌∷◌, ◌++◌, length,
  take, length-take_exact, Bool-cases,
}
use http_io.System.{ErrorCodes, size_mod}
use http_io.Asio.{Action, post, initiate, complete, ended, assert_failed, suspended}
use http_io.Serializer.{Serializer, IsLawful, Buffers, flatten}
use http_io.Write.{Event, run_posted, written}
use http_io.Write.Some.{async_write_some, SomeTurn, write_some_op, deliver_some}
use http_io.Write.All.{
  write_some, resume, WriteOp, WriteSome, Session, hand_on, taken, deliver, run, async_write,
}
use http_io.Write.All.Wire.{
  Waits, Inv, async_write-Inv, count-grows, count-keeps, completed-Inv, wire-consume,
}

module _ (E : ErrorCodes) (S : Serializer E) where
  open E use {Code, failed}

  -- What `async_write` starts with.
  pub async_write-starts :
      (s : S.State)
      → let w = async_write E S s in
        (w.action ≡ initiate write_some)
        × (w.op.point ≡ suspended)
        × (w.some_turn ≡ async_write_some E S s)
  unfolding async_write resume
  async_write-starts s = (refl, refl, refl)

  -- The stream takes no more bytes than the buffers have.
  abbrev pub IsWithin : Action Code Buffers → Event Code → Type 0
  IsWithin (initiate bs) (written c k) = k ≤ length (flatten bs)
  IsWithin a e = Unit

  abbrev pub AllWithin : Session E S → List (Event Code) → Type 0
  AllWithin w [] = Unit
  AllWithin w (e ∷ es) = IsWithin w.some_turn.action e × AllWithin (deliver E S w e) es

  module _ (L : IsLawful E S) where
    open L use {remaining}

    abbrev Handed : List ℕ → WriteOp → SomeTurn E S → List ℕ → Action Code Buffers → Type 0
    Handed message op t wire b =
        Inv E S L message (hand_on E S op t b wire).action (hand_on E S op t b wire)

    waiting-Inv :
        (message : List ℕ) (op : WriteOp) (t : SomeTurn E S) (wire : List ℕ)
        → (b : Action Code Buffers) → op.point ≡ suspended
        → op.n_ ≡ length wire % size_mod
        → wire ++ remaining t.serializer ≡ message
        → Waits E S L b t
        → Waits E S L t.action t
        → Handed message op t wire b
    unfolding hand_on
    waiting-Inv message op t wire (post c n) at h m waits w = (at, h, m, w)
    waiting-Inv message op t wire (initiate bs) at h m waits w = (at, h, m, w)
    waiting-Inv message op t wire (complete c n) at h m waits w = absurd waits
    waiting-Inv message op t wire ended at h m waits w = absurd waits
    waiting-Inv message op t wire assert_failed at h m waits w = absurd waits

    deliver-Inv_initiated :
        (message : List ℕ) (op : WriteOp) (t : SomeTurn E S) (wire : List ℕ)
        → (b : Action Code Buffers) (e : Event Code) → op.point ≡ suspended
        → op.n_ ≡ length wire % size_mod
        → wire ++ remaining t.serializer ≡ message
        → Waits E S L b t
        → Waits E S L t.action t
        → IsWithin b e
        → let t' = deliver_some E S b t e in
          let w = hand_on E S op t' t'.action (wire ++ taken E S b e) in
          Inv E S L message w.action w
    unfolding deliver_some write_some_op
    deliver-Inv_initiated message op t wire (post c n) run_posted at h m waits w q =
        rw (waits.0, append-nil)
          (completed-Inv E S L message op n t.serializer c wire at
            (count-keeps E S L op.n_ n wire h waits.1) m)
    deliver-Inv_initiated message op t wire (post c n) (written d k) at h m waits w q =
        rw append-nil (waiting-Inv message op t wire t.action at h m w w)
    deliver-Inv_initiated message op t wire (initiate bs) run_posted at h m waits w q =
        rw append-nil (waiting-Inv message op t wire t.action at h m w w)
    deliver-Inv_initiated message op t wire (initiate bs) (written d k) at h m waits w q =
        rw (waits.0) (
          completed-Inv E S L message op k (S.consume k t.serializer) d
            (wire ++ take k (flatten bs)) at
            (count-grows E S L op.n_ k wire (take k (flatten bs)) h
              (length-take_exact k (flatten bs) q))
            (wire-consume E S L message wire t.serializer bs waits.1.0 k waits.1.1 q m))
    deliver-Inv_initiated message op t wire (complete c n) e at h m waits w q = absurd waits
    deliver-Inv_initiated message op t wire ended e at h m waits w q = absurd waits
    deliver-Inv_initiated message op t wire assert_failed e at h m waits w q = absurd waits

    deliver-Inv :
        (message : List ℕ) (a : Action Code WriteSome) (w : Session E S) (e : Event Code)
        → w.action ≡ a
        → Inv E S L message a w
        → IsWithin w.some_turn.action e
        → Inv E S L message (deliver E S w e).action (deliver E S w e)
    unfolding deliver
    deliver-Inv message (initiate r) w e h (at, count, whole, waits) q =
        rw (h, deliver)
          (deliver-Inv_initiated message w.op w.some_turn w.wire w.some_turn.action e at count whole
            waits waits q)
    deliver-Inv message (complete c n) w e h i q =
        rw (h, deliver) (subst (λ a. Inv E S L message a w) (sym h) i)
    deliver-Inv message (post c n) w e h i q = absurd i
    deliver-Inv message ended w e h i q = absurd i
    deliver-Inv message assert_failed w e h i q = absurd i

    pub run-Inv :
        (message : List ℕ) (w : Session E S) (es : List (Event Code))
        → Inv E S L message w.action w
        → AllWithin w es
        → Inv E S L message (run E S w es).action (run E S w es)
    unfolding run
    run-Inv message w [] i q = i
    run-Inv message w (e ∷ es) i q =
        run-Inv message (deliver E S w e) es (deliver-Inv message w.action w e refl i q.0) q.1

    -- With a lawful serializer and a stream that takes no more than it is offered, a completion of
    -- `async_write` reports the number of bytes on the wire modulo 2 ^ 64, also with an error; these
    -- bytes and those that the serializer has left make up the message; and without an error the
    -- wire has all of the message.
    pub async_write-wire :
        (s : S.State) (es : List (Event Code)) (c : Code) (n : ℕ)
        → AllWithin (async_write E S s) es
        → (run E S (async_write E S s) es).action ≡ complete c n
        → let w = run E S (async_write E S s) es in
          (n ≡ length w.wire % size_mod)
          × (w.wire ++ remaining w.some_turn.serializer ≡ remaining s)
          × ((failed c ≡ true) ⊎ (w.wire ≡ remaining s))
    async_write-wire s es c n q h =
        let w = run E S (async_write E S s) es in
        let i : Inv E S L (remaining s) (complete c n) w =
          subst (λ a. Inv E S L (remaining s) a w) h
            (run-Inv (remaining s) (async_write E S s) es (async_write-Inv E S L s) q) in
        (
          i.0,
          i.1,
          elim (Bool-cases (failed c)) [
            | inl bad ↦ inl bad
            | inr ok ↦ inr (sym (append-nil w.wire) ∙ ap (λ r. w.wire ++ r) (sym (i.2 ok)) ∙ i.1)
          ],
        )
