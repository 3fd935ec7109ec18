-- ===== src/Write/All/Wire.antt =====
-- What async_write keeps between two writes: the wire, its count and what is left of the message.
use mathlib.Core.List.{append_assoc}
use http_io.Common.{
  ℕ, ◌%◌, ◌≤◌, ◌≡◌, refl, ap, ◌∙◌, inl, inr, true, false, List, [], ◌++◌, arith, length, take,
  length-append, take-append_exact, take-append-drop, Bool-cases,
}
use http_io.System.{ErrorCodes, size_mod, add_size}
use http_io.Asio.{Action, post, initiate, complete, ended, assert_failed, posted, suspended}
use http_io.Serializer.{Serializer, IsLawful, Buffers, Prepared, buffers, error, flatten}
use http_io.Write.Some.{SomeTurn, prepared, async_write_some, some_upcall}
use http_io.Write.All.{WriteOp, WriteSome, resume, write_op, Session, enter, hand_on, async_write}

module _ (E : ErrorCodes) (S : Serializer E) (L : IsLawful E S) where
  open E use {Code, failed}
  open L use {remaining}

  abbrev pub Waits : Action Code Buffers → SomeTurn E S → Type 0
  Waits (post c n) t = (t.point ≡ posted) × (n ≡ 0)
  Waits (initiate bs) t =
      (t.point ≡ suspended) × ((rest : List ℕ) × (remaining t.serializer ≡ flatten bs ++ rest))
  Waits (complete c n) t = ⊥
  Waits ended t = ⊥
  Waits assert_failed t = ⊥

  prepared-Waits :
      (s : S.State) (r : Prepared Code)
      → (S.prepare s).1 ≡ r
      → let t = prepared E S true ((S.prepare s).0, r) 0 in
        Waits t.action t × (remaining t.serializer ≡ remaining s)
  unfolding prepared
  prepared-Waits s (buffers bs) h =
      let (rest, e) = L.prepare_prefix s bs h in
      ((refl, (rest, L.remaining-prepare s ∙ e)), L.remaining-prepare s)
  prepared-Waits s (error c) h = ((refl, refl), L.remaining-prepare s)

  async_write_some-Waits :
      (s : S.State)
      → let t = async_write_some E S s in Waits t.action t × (remaining t.serializer ≡ remaining s)
  unfolding async_write_some
  async_write_some-Waits s = prepared-Waits s (S.prepare s).1 refl

  -- The bytes on the wire and those left make up the message, and the count is that of the wire.
  abbrev pub Inv : List ℕ → Action Code WriteSome → Session E S → Type 0
  Inv message (initiate r) w =
      (w.op.point ≡ suspended)
      × (w.op.n_ ≡ length w.wire % size_mod)
      × (w.wire ++ remaining w.some_turn.serializer ≡ message)
      × Waits w.some_turn.action w.some_turn
  Inv message (complete c n) w =
      (n ≡ length w.wire % size_mod)
      × (w.wire ++ remaining w.some_turn.serializer ≡ message)
      × (failed c ≡ false → remaining w.some_turn.serializer ≡ [])
  Inv message (post c n) w = ⊥
  Inv message ended w = ⊥
  Inv message assert_failed w = ⊥

  pub async_write-Inv :
      (s : S.State) → Inv (remaining s) (async_write E S s).action (async_write E S s)
  unfolding async_write resume
  async_write-Inv s = let (waits, e) = async_write_some-Waits s in (refl, omega arith, e, waits)

  -- The count and the wire grow together.
  pub count-grows :
      (n_ n : ℕ) (wire more : List ℕ)
      → n_ ≡ length wire % size_mod
      → length more ≡ n
      → add_size n_ n ≡ length (wire ++ more) % size_mod
  unfolding add_size
  count-grows n_ n wire more h k = omega (arith, length-append wire more)

  pub count-keeps :
      (n_ n : ℕ) (wire : List ℕ)
      → n_ ≡ length wire % size_mod
      → n ≡ 0
      → add_size n_ n ≡ length wire % size_mod
  unfolding add_size
  count-keeps n_ n wire h z = omega arith

  resume-Inv :
      (message : List ℕ) (n_ n : ℕ) (s : S.State) (c : Code) (t : SomeTurn E S) (wire : List ℕ)
      → add_size n_ n ≡ length wire % size_mod
      → wire ++ remaining s ≡ message
      → t.serializer ≡ s
      → let u = resume E S suspended n_ s c n in
        let w = enter E S u u.action t wire in Inv message w.action w
  unfolding resume enter
  resume-Inv message n_ n s c t wire h m e = elim (Bool-cases (failed c)) [
    | inl bad ↦ rw bad (h, rw e m, λ ok. cc)
    | inr ok ↦ elim (Bool-cases (S.is_done s)) [
      | inl done ↦ rw (ok, done) (h, rw e m, λ _. rw e ((L.is_done_iff s).0 done))
      | inr more ↦
          rw (ok, more)
            (let (waits, kept) = async_write_some-Waits t.serializer in
              (refl, h, rw (kept, e) m, waits))
    ]
  ]

  pub completed-Inv :
      (message : List ℕ) (op : WriteOp) (n : ℕ) (s : S.State) (c : Code) (wire : List ℕ)
      → op.point ≡ suspended
      → add_size op.n_ n ≡ length wire % size_mod
      → wire ++ remaining s ≡ message
      → let w = hand_on E S op (some_upcall E S s c n) (complete c n) wire in Inv message w.action w
  unfolding hand_on write_op
  completed-Inv message op n s c wire at h m =
      rw at (resume-Inv message op.n_ n s c (some_upcall E S s c n) wire h m refl)

  -- What is on the wire and what is left after a write, from the same before.
  pub wire-consume :
      (message wire : List ℕ) (s : S.State) (bs : Buffers) (rest : List ℕ) (k : ℕ)
      → remaining s ≡ flatten bs ++ rest
      → k ≤ length (flatten bs)
      → wire ++ remaining s ≡ message
      → (wire ++ take k (flatten bs)) ++ remaining (S.consume k s) ≡ message
  wire-consume message wire s bs rest k e h m =
      rw (append_assoc wire (take k (flatten bs)) (remaining (S.consume k s))) (
        ap (λ r. wire ++ r)
          (rw
            (
              L.remaining-consume s k (rw e (omega (arith, length-append (flatten bs) rest))),
              ← take-append_exact k (flatten bs) rest h,
              ← e,
            )
            (take-append-drop k (remaining s)))
        ∙ m)
