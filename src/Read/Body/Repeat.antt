-- ===== src/Read/Body/Repeat.antt =====
-- async_read reads what repeated calls of async_read_some read.
use http_io.Common.{
  ℕ, ◌≡◌, refl, ap, ◌∙◌, Bool, true, false, ◌||◌, List, [], ◌∷◌, arith, length, Bool-cases, inl,
  inr, if◌then◌else◌,
}
use http_io.System.{ErrorCodes, add_size, add_size-zero_add}
use http_io.Asio.{Action, complete, suspended}
use http_io.Parser.{Parser, IsLawful}
use http_io.Read.{ReadSome, Turn, upcall, read_more, Event, run_posted, arrival, deliver, run}
use http_io.Read.Run.{AllReads, run-complete}
use http_io.Read.Loop.{IsEofEmpty}
use http_io.Read.Body.{started, parsed, arrived, read_body_op, begin_body, async_read}
use http_io.Read.Body.Laws.{read_body_op-suspended, async_body-started}

module _ (E : ErrorCodes) (P : Parser E) where
  open E use {Code, failed}

  -- What a caller of async_read_some makes of its completion: it stops at an error or at the end
  -- of the body, and otherwise calls again. `total` adds up what the calls report.
  abbrev next_call : ℕ → Turn E P → Action Code ReadSome → (ℕ → P.State → Turn E P) → Turn E P
  next_call total t (complete c n) again =
      if failed c || P.is_complete t.parser
      then upcall E P (add_size total n) t.parser c
      else again (add_size total n) t.parser
  next_call total t _ again = t

  -- One operation of async_read_some for each read of the stream.
  unfoldable pub read_repeatedly : ℕ → P.State → List (Event Code) → Turn E P
  read_repeatedly total p [] = read_more E P total p
  read_repeatedly total p (run_posted ∷ es) = read_repeatedly total p es
  read_repeatedly total p (arrival c bytes ∷ es) =
      let t = run E P (read_body_op E P true) (begin_body E P true p) (arrival c bytes ∷ []) in
      next_call total t t.action (λ total' p'. read_repeatedly total' p' es)

  pub begin_body-incomplete :
      (some_ : Bool) (p : P.State)
      → P.is_complete p ≡ false
      → begin_body E P some_ p ≡ read_more E P 0 p
  unfolding begin_body
  begin_body-incomplete some_ p h = ground arith

  pub run-arrival :
      (some_ : Bool) (total : ℕ) (p : P.State) (c : Code) (bytes : List ℕ) (es : List (Event Code))
      → run E P (read_body_op E P some_) (read_more E P total p) (arrival c bytes ∷ es)
        ≡ run E P
            (read_body_op E P some_)
            (arrived E P some_
              (record { point = suspended; total_bytes = total })
              (P.store bytes (P.prepare p))
              c
              (length bytes))
            es
  unfolding run deliver
  run-arrival some_ total p c bytes es =
      ap (λ t. run E P (read_body_op E P some_) t es)
        (read_body_op-suspended E P some_ (record { point = suspended; total_bytes = total }) _ c _
          refl)

  run-upcall :
      (total : ℕ) (p : P.State) (c : Code) (es : List (Event Code))
      → run E P (read_body_op E P false) (upcall E P total p c) es ≡ upcall E P total p c
  run-upcall total p c es =
      run-complete E P (read_body_op E P false) (upcall E P total p c) c total es refl

  -- How the two operations treat the result of `parse`.
  parsed-repeat :
      IsLawful E P
      → (total k : ℕ) (p : P.State) (c : Code) (es : List (Event Code))
      → (again : ℕ → P.State → Turn E P)
      → ((total' : ℕ) (p' : P.State)
          → P.is_complete p' ≡ false
          → run E P (read_body_op E P false) (read_more E P total' p') es ≡ again total' p')
      → let t = parsed E P true (add_size 0 k) (P.parse p c) in
        run E P (read_body_op E P false) (parsed E P false (add_size total k) (P.parse p c)) es
        ≡ next_call total t t.action again
  unfolding parsed
  parsed-repeat L total k p c es again ih =
      let (p', c') = P.parse p c in
      ground (
        arith,
        add_size-zero_add total k,
        L.complete_of_parse p c,
        L.incomplete_of_need_more p c,
        E.failed-success,
        ih (add_size total k) p',
        run-upcall (add_size total k) p' c' es,
      )

  arrived-repeat :
      IsLawful E P
      → (total : ℕ) (p : P.State) (c : Code) (n : ℕ) (es : List (Event Code))
      → (E.is_eof c ≡ true → n ≡ 0)
      → (again : ℕ → P.State → Turn E P)
      → ((total' : ℕ) (p' : P.State)
          → P.is_complete p' ≡ false
          → run E P (read_body_op E P false) (read_more E P total' p') es ≡ again total' p')
      → let t = arrived E P true (record { point = suspended; total_bytes = 0 }) p c n in
        run E P
          (read_body_op E P false)
          (arrived E P false (record { point = suspended; total_bytes = total }) p c n)
          es
        ≡ next_call total t t.action again
  unfolding arrived
  arrived-repeat L total p c n es q again ih = elim (Bool-cases (E.is_eof c)) [
    | inl e ↦
        rw (e, q e) (parsed-repeat L total 0 (P.commit_eof (P.commit 0 p)) E.success es again ih)
    | inr e ↦ elim (Bool-cases (failed c)) [
      | inl f ↦
          rw (e, f, add_size-zero_add total n, f)
            (run-upcall (add_size total n) (P.commit n p) c es)
      | inr f ↦ rw (e, f) (parsed-repeat L total n (P.commit n p) c es again ih)
    ]
  ]

  pub run-nil : (some_ : Bool) (t : Turn E P) → run E P (read_body_op E P some_) t [] ≡ t
  unfolding run
  run-nil some_ t = refl

  run-posted :
      (total : ℕ) (p : P.State) (es : List (Event Code))
      → run E P (read_body_op E P false) (read_more E P total p) (run_posted ∷ es)
        ≡ run E P (read_body_op E P false) (read_more E P total p) es
  unfolding run deliver
  run-posted total p es = refl

  run-repeat :
      IsLawful E P
      → (total : ℕ) (p : P.State) (es : List (Event Code)) → AllReads (IsEofEmpty E) es
      → P.is_complete p ≡ false
      → run E P (read_body_op E P false) (read_more E P total p) es ≡ read_repeatedly total p es
  unfolding read_repeatedly
  run-repeat L total p [] q h = run-nil false _
  run-repeat L total p (run_posted ∷ es) q h = run-posted total p es ∙ run-repeat L total p es q h
  run-repeat L total p (arrival c bytes ∷ es) q h =
      run-arrival false total p c bytes es
      ∙ rw (begin_body-incomplete true p h, run-arrival true 0 p c bytes [], run-nil true)
          (arrived-repeat L total (P.store bytes (P.prepare p)) c (length bytes) es q.0
            (λ total' p'. read_repeatedly total' p' es)
            (λ total' p' h'. run-repeat L total' p' es q.1 h'))

  -- With a lawful parser that has the header and is not complete, `async_read` ends, after any
  -- events, with the same count, parser and action as a caller that repeats `async_read_some` and
  -- adds up its counts until it fails or the parser is complete, if the reads that end the stream
  -- bring no bytes.
  pub async_read-repeat :
      IsLawful E P
      → (p : P.State) (t : Turn E P) (es : List (Event Code)) → P.is_complete p ≡ false
      → AllReads (IsEofEmpty E) es
      → async_read E P p ≡ started t
      → run E P (read_body_op E P false) t es ≡ read_repeatedly 0 p es
  async_read-repeat L p t es h q s =
      rw (async_body-started E P false p t s, begin_body-incomplete false p h)
        (run-repeat L 0 p es q h)
