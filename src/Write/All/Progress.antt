-- ===== src/Write/All/Progress.antt =====
-- async_write ends.
use http_io.Asio.{is_completed}
use http_io.Common.{
  ℕ, zero, suc, ◌≤◌, ◌<◌, ◌≡◌, refl, ap, subst, ◌∙◌, ◌⊎◌, inl, inr, true, List, [], ◌∷◌, ◌++◌,
  arith, length, take, length-append, length-drop, Bool-cases,
}
use http_io.System.{ErrorCodes, add_size}
use http_io.Asio.{Action, post, initiate, complete, ended, assert_failed, suspended}
use http_io.Serializer.{Serializer, IsLawful, Buffers, buffers, flatten}
use http_io.Write.{Event, run_posted, written}
use http_io.Write.Some.{
  SomeTurn, prepared, write_some_op, async_write_some, deliver_some, some_upcall,
}
use http_io.Write.All.{
  WriteSome, write_some, resume, write_op, Session, enter, hand_on, deliver, run, async_write,
}
use http_io.Write.All.Laws.{IsWithin, AllWithin}

module _ (E : ErrorCodes) (S : Serializer E) where
  open E use {Code, failed}

  -- Each event is a write that fails or takes at least one byte.
  abbrev pub AllProgress : List (Event Code) → Type 0
  AllProgress [] = Unit
  AllProgress (run_posted ∷ es) = ⊥
  AllProgress (written c k ∷ es) = ((failed c ≡ true) ⊎ (1 ≤ k)) × AllProgress es

  deliver-completed :
      (a : Action Code WriteSome) (w : Session E S) (e : Event Code)
      → w.action ≡ a
      → is_completed a ≡ true
      → deliver E S w e ≡ w
  unfolding deliver
  deliver-completed (complete c n) w e h d = ground arith
  deliver-completed (post c n) w e h d = cc
  deliver-completed (initiate r) w e h d = cc
  deliver-completed ended w e h d = cc
  deliver-completed assert_failed w e h d = cc

  pub run-completed :
      (w : Session E S) (es : List (Event Code)) → is_completed w.action ≡ true → run E S w es ≡ w
  unfolding run
  run-completed w [] d = refl
  run-completed w (e ∷ es) d =
      ap (λ v. run E S v es) (deliver-completed w.action w e refl d) ∙ run-completed w es d

  deliver-offered :
      (w : Session E S) (c : Code) (k : ℕ) (bs : Buffers)
      → w.action ≡ initiate write_some
      → w.op.point ≡ suspended
      → w.some_turn.action ≡ initiate bs
      → w.some_turn.point ≡ suspended
      → let s = S.consume k w.some_turn.serializer in
        let u = resume E S suspended w.op.n_ s c k in
        deliver E S w (written c k)
        ≡ enter E S u u.action (some_upcall E S s c k) (w.wire ++ take k (flatten bs))
  unfolding deliver hand_on deliver_some write_some_op write_op
  deliver-offered w c k bs going at offered at_some = ground arith

  resume-error :
      (n_ k : ℕ) (s : S.State) (c : Code) (t : SomeTurn E S) (wire : List ℕ)
      → failed c ≡ true
      → let u = resume E S suspended n_ s c k in
        (enter E S u u.action t wire).action ≡ complete c (add_size n_ k)
  unfolding resume enter
  resume-error n_ k s c t wire bad = rw bad

  -- A write that fails ends a pending operation.
  pub deliver-error :
      (w : Session E S) (c : Code) (k : ℕ) (bs : Buffers)
      → w.action ≡ initiate write_some
      → w.op.point ≡ suspended
      → w.some_turn.action ≡ initiate bs
      → w.some_turn.point ≡ suspended
      → failed c ≡ true
      → (deliver E S w (written c k)).action ≡ complete c (add_size w.op.n_ k)
  deliver-error w c k bs going at offered at_some bad =
      rw (deliver-offered w c k bs going at offered at_some)
        (resume-error w.op.n_ k (S.consume k w.some_turn.serializer) c _ _ bad)

  module _ (L : IsLawful E S)
      (ready : (s : S.State) → (bs : Buffers) × ((S.prepare s).1 ≡ buffers bs)) where
    open L use {remaining}

    abbrev Offers : SomeTurn E S → Type 0
    Offers t =
        (bs : Buffers) × (t.action ≡ initiate bs)
        × (t.point ≡ suspended)
        × ((rest : List ℕ) × (remaining t.serializer ≡ flatten bs ++ rest))

    async_write_some-Offers :
        (s : S.State)
        → Offers (async_write_some E S s)
          × (remaining (async_write_some E S s).serializer ≡ remaining s)
    unfolding async_write_some prepared
    async_write_some-Offers s =
        let (bs, h) = ready s in
        let (rest, e) = L.prepare_prefix s bs h in
        rw h ((bs, refl, refl, (rest, L.remaining-prepare s ∙ e)), L.remaining-prepare s)

    -- The operation waits for the stream, and there is something left.
    abbrev Goes : ℕ → Session E S → Type 0
    Goes bound w =
        (w.action ≡ initiate write_some)
        × (w.op.point ≡ suspended)
        × Offers w.some_turn
        × (0 < length (remaining w.some_turn.serializer))
        × (length (remaining w.some_turn.serializer) ≤ bound)

    pos_of_ne_nil : (xs : List ℕ) → (xs ≡ [] → ⊥) → 0 < length xs
    pos_of_ne_nil [] h = absurd (h refl)
    pos_of_ne_nil (x ∷ xs) h = omega arith

    resume-Goes :
        (bound n_ n : ℕ) (s : S.State) (c : Code) (wire : List ℕ)
        → (failed c ≡ true) ⊎ (length (remaining s) ≤ bound)
        → let u = resume E S suspended n_ s c n in
          let w = enter E S u u.action (some_upcall E S s c n) wire in
          (is_completed w.action ≡ true) ⊎ Goes bound w
    unfolding resume enter
    resume-Goes bound n_ n s c wire h = elim (Bool-cases (failed c)) [
      | inl bad ↦ rw bad (inl refl)
      | inr ok ↦ elim (Bool-cases (S.is_done s)) [
        | inl done ↦ rw (ok, done) (inl refl)
        | inr more ↦
            let (offers, kept) = async_write_some-Offers s in
            rw (ok, more)
              (inr (
                refl,
                refl,
                offers,
                rw kept (pos_of_ne_nil (remaining s) (λ e. cc ((L.is_done_iff s).1 e))),
                rw kept (elim h [ inl bad ↦ cc | inr le ↦ le ]),
              ))
      ]
    ]

    shrinks :
        (s : S.State) (bs : Buffers) (rest : List ℕ) (c : Code) (k bound : ℕ)
        → remaining s ≡ flatten bs ++ rest
        → k ≤ length (flatten bs)
        → length (remaining s) ≤ suc bound
        → (failed c ≡ true) ⊎ (1 ≤ k)
        → (failed c ≡ true) ⊎ (length (remaining (S.consume k s)) ≤ bound)
    shrinks s bs rest c k bound e q le (inl bad) = inl bad
    shrinks s bs rest c k bound e q le (inr pos) =
        let total = length-append (flatten bs) rest in
        let left = ap length (L.remaining-consume s k (omega (arith, ap length e, total))) in
        inr (omega (arith, left, length-drop k (remaining s), ap length e, total))

    deliver-Goes :
        (bound : ℕ) (w : Session E S) (c : Code) (k : ℕ)
        → (failed c ≡ true) ⊎ (1 ≤ k)
        → AllWithin E S w (written c k ∷ [])
        → Goes (suc bound) w
        → (is_completed (deliver E S w (written c k)).action ≡ true)
          ⊎ Goes bound (deliver E S w (written c k))
    deliver-Goes bound w c k p q (going, at, (bs, offered, at_some, (rest, e)), pos, le) =
        let within : k ≤ length (flatten bs) =
          subst (λ b. IsWithin E S b (written c k)) offered q.0 in
        rw (deliver-offered w c k bs going at offered at_some) (
          resume-Goes bound w.op.n_ k (S.consume k w.some_turn.serializer) c _
            (shrinks w.some_turn.serializer bs rest c k bound e within le p))

    run-Goes :
        (bound : ℕ) (w : Session E S) (es : List (Event Code))
        → Goes bound w
        → AllProgress es
        → AllWithin E S w es
        → bound ≤ length es
        → is_completed (run E S w es).action ≡ true
    unfolding run
    run-Goes bound w [] (_, _, _, pos, le) p q h = absurd (omega arith)
    run-Goes bound w (run_posted ∷ es) g p q h = absurd p
    run-Goes zero w (written c k ∷ es) (_, _, _, pos, le) p q h = absurd (omega arith)
    run-Goes (suc bound) w (written c k ∷ es) g p q h =
        elim (deliver-Goes bound w c k p.0 (q.0, tt) g) [
          | inl done ↦ rw (run-completed (deliver E S w (written c k)) es done) done
          | inr g' ↦ run-Goes bound (deliver E S w (written c k)) es g' p.1 q.1 (omega arith)
        ]

    async_write-Goes :
        (s : S.State) → 0 < length (remaining s) → Goes (length (remaining s)) (async_write E S s)
    unfolding async_write resume
    async_write-Goes s pos =
        let (offers, kept) = async_write_some-Offers s in
        (refl, refl, offers, rw kept pos, rw kept (omega arith))

    -- With a lawful serializer that has something left and whose `prepare` never fails,
    -- `async_write` completes by the time that the stream has completed as many writes as there are
    -- bytes left, if each of them takes at least one byte or fails, and none takes more than it is
    -- offered.
    pub async_write_ends :
        (s : S.State) (es : List (Event Code))
        → 0 < length (remaining s)
        → AllProgress es
        → AllWithin E S (async_write E S s) es
        → length (remaining s) ≤ length es
        → is_completed (run E S (async_write E S s) es).action ≡ true
    async_write_ends s es pos p q h =
        run-Goes (length (remaining s)) (async_write E S s) es (async_write-Goes s pos) p q h
