-- ===== src/Read/Body/Laws.antt =====
-- When the body has been read.
use http_io.Common.{
  ℕ, ◌≡◌, refl, Bool-cases, ◌⊎◌, inl, inr, ◌↔◌, ◌∙◌, Bool, true, false, List, arith, length,
}
use http_io.System.{ErrorCodes, add_size}
use http_io.Asio.{Action, post, initiate, complete, ended, assert_failed, Point, posted, suspended}
use http_io.Parser.{Parser, IsLawful}
use http_io.Read.{ReadOp, ReadSome, read_some, Turn, upcall, Event, arrival, deliver, run}
use http_io.Read.Run.{AnyRead, AllReads-any, run-Inv}
use http_io.Read.Body.{
  Started, logic_error, started, parsed, arrived, resume, read_body_op, begin_body, async_read_some,
  async_read,
}

module _ (E : ErrorCodes) (P : Parser E) (some_ : Bool) where
  module _ (op : ReadOp) (p : P.State) (c : E.Code) (n : ℕ) where
    pub read_body_op-suspended :
        op.point ≡ suspended → read_body_op E P some_ op p c n ≡ arrived E P some_ op p c n
    unfolding read_body_op
    read_body_op-suspended h = rw (h, resume)

    pub read_body_op-posted :
        op.point ≡ posted
        → read_body_op E P some_ op p c n
          ≡ upcall E P op.total_bytes (P.parse p c).0 (P.parse p c).1
    unfolding read_body_op
    read_body_op-posted h = rw (h, resume)

module _ (E : ErrorCodes) (P : Parser E) (some_ : Bool) where
  open E use {Code, success, failed, is_need_more_input}

  -- What a completion without an error says of the parser.
  abbrev Sound : Action Code ReadSome → Point → P.State → Type 0
  Sound (post ec n) at p = at ≡ posted
  Sound (initiate r) at p = at ≡ suspended
  Sound (complete ec n) at p = failed ec ≡ false → (some_ ≡ true) ⊎ (P.is_complete p ≡ true)
  Sound ended at p = Unit
  Sound assert_failed at p = Unit

  abbrev IsSound : Turn E P → Type 0
  IsSound t = Sound t.action t.op.point t.parser

  arrived-IsSound :
      (op : ReadOp) (p : P.State) (c : Code) (n : ℕ) → IsSound (arrived E P some_ op p c n)
  unfolding arrived parsed
  arrived-IsSound op p c n = ground (arith, E.failed_of_eof c)

  begun-IsSound : (p : P.State) → IsSound (begin_body E P some_ p)
  unfolding begin_body
  begun-IsSound p = ground arith

  run-IsSound :
      IsLawful E P
      → (p : P.State) (es : List (Event Code))
      → IsSound (run E P (read_body_op E P some_) (begin_body E P some_ p) es)
  run-IsSound L p es =
      run-Inv E P (read_body_op E P some_) AnyRead IsSound
        (λ t c n e s.
          let s' : Sound (post c n) t.op.point t.parser = rw e at s in
          rw (read_body_op-posted E P some_ t.op t.parser c n s')
            (λ ok. inr (L.complete_of_parse t.parser c ok)))
        (λ t r c bytes _ e s.
          let s' : Sound (initiate r) t.op.point t.parser = rw e at s in
          rw (read_body_op-suspended E P some_ t.op _ c _ s') (arrived-IsSound t.op _ c _))
        (begin_body E P some_ p) es (AllReads-any es) (begun-IsSound p)

module _ (E : ErrorCodes) (P : Parser E) where
  -- `async_read` and `async_read_some` throw std::logic_error exactly if the parser has no header.
  pub async_read-logic_error :
      (p : P.State)
      → ((async_read E P p ≡ logic_error) ↔ (P.got_header p ≡ false))
        × ((async_read_some E P p ≡ logic_error) ↔ (P.got_header p ≡ false))
  unfolding async_read async_read_some
  async_read-logic_error p = ground arith

  -- The two functions by the flag that they pass on.
  abbrev pub async_body : Bool → P.State → Started (Turn E P)
  async_body true p = async_read_some E P p
  async_body false p = async_read E P p

  pub async_body-started :
      (some_ : Bool) (p : P.State) (t : Turn E P)
      → async_body some_ p ≡ started t
      → t ≡ begin_body E P some_ p
  unfolding async_read async_read_some
  async_body-started true p t h = ground arith
  async_body-started false p t h = ground arith

  complete_of_sound : {b : Bool} → (false ≡ true) ⊎ (b ≡ true) → b ≡ true
  complete_of_sound h = ground arith

  -- With a lawful parser, whatever events drive it, `async_read` completes without an error only
  -- with a parser that is complete.
  pub async_read-is_complete :
      IsLawful E P
      → (p : P.State) (t : Turn E P) (es : List (Event E.Code)) (c : E.Code) (n : ℕ)
      → async_read E P p ≡ started t
      → (run E P (read_body_op E P false) t es).action ≡ complete c n
      → E.failed c ≡ false
      → P.is_complete (run E P (read_body_op E P false) t es).parser ≡ true
  async_read-is_complete L p t es c n s h ok =
      let sound : IsSound E P false (run E P (read_body_op E P false) t es) =
        rw (async_body-started false p t s) (run-IsSound E P false L p es) in
      let after = run E P (read_body_op E P false) t es in
      let outcome : Sound E P false (complete c n) after.op.point after.parser = rw h at sound in
      complete_of_sound (outcome ok)

module _ (E : ErrorCodes) (P : Parser E) (some_ : Bool) where
  arrived-error :
      (op : ReadOp) (p : P.State) (c : E.Code) (n : ℕ)
      → E.failed c ≡ true
      → E.is_eof c ≡ false
      → arrived E P some_ op p c n ≡ upcall E P (add_size op.total_bytes n) (P.commit n p) c
  unfolding arrived
  arrived-error op p c n bad e = ground arith

  deliver-initiate :
      (a : Action E.Code ReadSome) (t : Turn E P) (r : ReadSome) (c : E.Code) (bytes : List ℕ)
      → a ≡ initiate r
      → deliver E P (read_body_op E P some_) a t (arrival c bytes)
        ≡ read_body_op E P some_ t.op (P.store bytes t.parser) c (length bytes)
  unfolding deliver
  deliver-initiate a t r c bytes h = rw (h, deliver)

  -- An error of the stream, the end apart, ends a pending operation.
  pub deliver-error :
      (t : Turn E P) (r : ReadSome) (c : E.Code) (bytes : List ℕ)
      → t.action ≡ initiate r
      → t.op.point ≡ suspended
      → E.failed c ≡ true
      → E.is_eof c ≡ false
      → deliver E P (read_body_op E P some_) t.action t (arrival c bytes)
        ≡ upcall E P
            (add_size t.op.total_bytes (length bytes))
            (P.commit (length bytes) (P.store bytes t.parser))
            c
  deliver-error t r c bytes h at bad e =
      deliver-initiate t.action t r c bytes h
      ∙ read_body_op-suspended E P some_ t.op (P.store bytes t.parser) c (length bytes) at
      ∙ arrived-error t.op (P.store bytes t.parser) c (length bytes) bad e

module _ (E : ErrorCodes) (P : Parser E) where
  -- A read completed with another error than a need for input, or with a complete parser.
  abbrev pub LeftBehind : E.Code → P.State → Type 0
  LeftBehind c p =
      ((E.failed c ≡ true) × (E.is_need_more_input c ≡ false))
      ⊎ ((E.failed c ≡ false) × (P.is_complete p ≡ true))

  abbrev Leaves : Turn E P → Type 0
  Leaves t = (c : E.Code) × (n : ℕ) × (t.action ≡ complete c n) × LeftBehind c t.parser

  parsed-Leaves :
      (total : ℕ) (p : P.State) (c : E.Code)
      → E.is_need_more_input c ≡ false
      → (E.failed c ≡ false → P.is_complete p ≡ true)
      → Leaves (parsed E P true total (p, c))
  unfolding parsed
  parsed-Leaves total p c other h = elim (Bool-cases (E.failed c)) [
    | inl bad ↦ rw (bad, other) (c, total, refl, inl (bad, other))
    | inr good ↦ rw (good, h good) (c, total, refl, inr (good, h good))
  ]

  arrived-Leaves :
      IsLawful E P
      → (op : ReadOp) (p : P.State) (c : E.Code) (n : ℕ) → E.failed c ≡ true
      → E.is_need_more_input c ≡ false
      → (E.is_eof c ≡ true → n ≡ 0)
      → Leaves (arrived E P true op p c n)
  unfolding arrived
  arrived-Leaves L op p c n bad other q = elim (Bool-cases (E.is_eof c)) [
    | inl eof ↦
        let p' = P.commit_eof (P.commit 0 p) in
        rw (eof, q eof)
          (parsed-Leaves (add_size op.total_bytes 0) (P.parse p' E.success).0
            (P.parse p' E.success).1 (L.eof_decides (P.commit 0 p) E.success)
            (L.complete_of_parse p' E.success))
    | inr live ↦ rw (live, bad) (c, _, refl, inl (bad, other))
  ]

  -- The first read that fails leaves `async_read_some` with a result on which no caller goes on.
  pub deliver-LeftBehind :
      IsLawful E P
      → (t : Turn E P) (c : E.Code) (bytes : List ℕ) → t.action ≡ initiate read_some
      → t.op.point ≡ suspended
      → E.failed c ≡ true
      → E.is_need_more_input c ≡ false
      → (E.is_eof c ≡ true → length bytes ≡ 0)
      → Leaves (deliver E P (read_body_op E P true) t.action t (arrival c bytes))
  deliver-LeftBehind L t c bytes going at bad other q =
      rw
        (
          deliver-initiate E P true t.action t read_some c bytes going,
          read_body_op-suspended E P true t.op (P.store bytes t.parser) c (length bytes) at,
        )
        (arrived-Leaves L t.op (P.store bytes t.parser) c (length bytes) bad other q)
