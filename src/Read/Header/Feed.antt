-- ===== src/Read/Header/Feed.antt =====
-- async_read_header gives the parser the bytes of the stream, read by read, and no more.
use http_io.Common.{
  ℕ, ◌+◌, ◌%◌, ◌≡◌, refl, ap, ◌∙◌, true, false, not, ◌||◌, List, [], ◌∷◌, ◌++◌, arith, length,
  if◌then◌else◌,
}
use http_io.System.{ErrorCodes, size_mod, add_size, add_size-add_size, add_size_lem}
use http_io.Asio.{suspended}
use http_io.Parser.{Parser}
use http_io.Read.{upcall, read_more, Event, arrival, deliver, run}
use http_io.Read.Run.{reads, run-complete}
use http_io.Read.Header.{parsed, arrived, read_header_op, async_read_header}
use http_io.Read.Header.Laws.{read_header_op-suspended}

-- The number of bytes of a row of reads.
abbrev pub bytes_of : {C : Type 0} → List (C × List ℕ) → ℕ
bytes_of [] = 0
bytes_of ((c, bytes) ∷ ds) = length bytes + bytes_of ds

module _ (E : ErrorCodes) (P : Parser E) where
  open E use {Code, success, failed, is_eof, is_need_more_input}

  -- The parser's buffer is filled with the bytes of a read, and they are committed.
  abbrev pub fill : P.State → List ℕ → P.State
  fill p bytes = P.commit (length bytes) (P.store bytes (P.prepare p))

  abbrev pub feed : P.State → List (Code × List ℕ) → P.State
  feed p [] = p
  feed p ((c, bytes) ∷ ds) = feed (P.parse (fill p bytes) c).0 ds

  -- What `parse` gives behind a last read.
  abbrev pub parse_last : P.State → List (Code × List ℕ) → Code → List ℕ → P.State × Code
  parse_last p ds c bytes = P.parse (fill (feed p ds) bytes) c

  -- No read fails, and behind each one the parser lacks the header and needs more input.
  abbrev pub IsHungry : P.State → List (Code × List ℕ) → Type 0
  IsHungry p [] = Unit
  IsHungry p ((c, bytes) ∷ ds) =
      (failed c ≡ false)
      × (is_need_more_input (P.parse (fill p bytes) c).1 ≡ true)
      × (P.got_header (P.parse (fill p bytes) c).0 ≡ false)
      × IsHungry (P.parse (fill p bytes) c).0 ds

  run-arrival :
      (total : ℕ) (p : P.State) (c : Code) (bytes : List ℕ) (es : List (Event Code))
      → run E P (read_header_op E P) (read_more E P total p) (arrival c bytes ∷ es)
        ≡ run E P
            (read_header_op E P)
            (arrived E P
              (record { point = suspended; total_bytes = total })
              (P.store bytes (P.prepare p))
              c
              (length bytes))
            es
  unfolding run deliver
  run-arrival total p c bytes es =
      ap (λ t. run E P (read_header_op E P) t es)
        (read_header_op-suspended E P (record { point = suspended; total_bytes = total }) _ c _
          refl)

  arrived-hungry :
      (total : ℕ) (p : P.State) (c : Code) (n : ℕ)
      → failed c ≡ false
      → is_need_more_input (P.parse (P.commit n p) c).1 ≡ true
      → P.got_header (P.parse (P.commit n p) c).0 ≡ false
      → arrived E P (record { point = suspended; total_bytes = total }) p c n
        ≡ read_more E P (add_size total n) (P.parse (P.commit n p) c).0
  unfolding arrived parsed
  arrived-hungry total p c n ok more lacks = ground (arith, E.failed_of_eof c)

  count : ℕ → List (Code × List ℕ) → ℕ
  count total [] = total
  count total ((c, bytes) ∷ ds) = count (add_size total (length bytes)) ds

  add_size-count :
      (total : ℕ) (ds : List (Code × List ℕ)) (n : ℕ)
      → add_size (count total ds) n ≡ add_size total (bytes_of ds + n)
  unfolding count
  add_size-count total [] n = ap (add_size total) (omega arith)
  add_size-count total ((c, bytes) ∷ ds) n =
      add_size-count (add_size total (length bytes)) ds n
      ∙ add_size-add_size total _ _
      ∙ ap (add_size total) (omega arith)

  run-reads :
      (total : ℕ) (p : P.State) (ds : List (Code × List ℕ)) (es : List (Event Code))
      → IsHungry p ds
      → run E P (read_header_op E P) (read_more E P total p) (reads ds ++ es)
        ≡ run E P (read_header_op E P) (read_more E P (count total ds) (feed p ds)) es
  unfolding count
  run-reads total p [] es h = refl
  run-reads total p ((c, bytes) ∷ ds) es (ok, more, lacks, h) =
      run-arrival total p c bytes (reads ds ++ es)
      ∙ rw (arrived-hungry total (P.store bytes (P.prepare p)) c (length bytes) ok more lacks)
          (run-reads (add_size total (length bytes)) (P.parse (fill p bytes) c).0 ds es h)

  begun-lacking :
      (p : P.State) → P.got_header p ≡ false → async_read_header E P p ≡ read_more E P 0 p
  unfolding async_read_header
  begun-lacking p h = ground arith

  run-upcall :
      (total : ℕ) (p : P.State) (c : Code) (es : List (Event Code))
      → run E P (read_header_op E P) (upcall E P total p c) es ≡ upcall E P total p c
  run-upcall total p c es =
      run-complete E P (read_header_op E P) (upcall E P total p c) c total es refl

  -- Where the reads so far leave the parser hungry, the operation is at the next read.
  run-last :
      (p : P.State) (ds : List (Code × List ℕ)) (c : Code) (bytes : List ℕ) (es : List (Event Code))
      → P.got_header p ≡ false
      → IsHungry p ds
      → run E P (read_header_op E P) (async_read_header E P p) (reads ds ++ arrival c bytes ∷ es)
        ≡ run E P
            (read_header_op E P)
            (arrived E P
              (record { point = suspended; total_bytes = count 0 ds })
              (P.store bytes (P.prepare (feed p ds)))
              c
              (length bytes))
            es
  run-last p ds c bytes es h hungry = rw (begun-lacking p h) (
      run-reads 0 p ds (arrival c bytes ∷ es) hungry
      ∙ run-arrival (count 0 ds) (feed p ds) c bytes es)

  arrived-error :
      (total : ℕ) (p : P.State) (c : Code) (n : ℕ)
      → failed c ≡ true
      → is_eof c ≡ false
      → arrived E P (record { point = suspended; total_bytes = total }) p c n
        ≡ upcall E P (add_size total n) (P.commit n p) c
  unfolding arrived
  arrived-error total p c n bad e = ground arith

  -- From a parser without a header, after reads that leave it hungry, a read that fails with
  -- another error than the end of the stream completes `async_read_header` with that error: the
  -- count is that of all bytes modulo 2 ^ 64, and the parser has been fed each read before it, and
  -- has this one's bytes committed but not parsed. No later event changes that.
  pub async_read_header_fails :
      (p : P.State) (ds : List (Code × List ℕ)) (c : Code) (bytes : List ℕ) (es : List (Event Code))
      → P.got_header p ≡ false
      → IsHungry p ds
      → failed c ≡ true
      → is_eof c ≡ false
      → run E P (read_header_op E P) (async_read_header E P p) (reads ds ++ arrival c bytes ∷ es)
        ≡ upcall E P ((bytes_of ds + length bytes) % size_mod) (fill (feed p ds) bytes) c
  async_read_header_fails p ds c bytes es h hungry bad e =
      run-last p ds c bytes es h hungry
      ∙ rw
          (
            arrived-error (count 0 ds) (P.store bytes (P.prepare (feed p ds))) c (length bytes) bad
                e,
            add_size-count 0 ds (length bytes),
            add_size_lem (bytes_of ds + length bytes),
          )
          (run-upcall _ _ c es)

  arrived-enough :
      (total : ℕ) (p : P.State) (c : Code) (n : ℕ)
      → failed c ≡ false
      → (not (is_need_more_input (P.parse (P.commit n p) c).1)
          || P.got_header (P.parse (P.commit n p) c).0)
        ≡ true
      → arrived E P (record { point = suspended; total_bytes = total }) p c n
        ≡ upcall E P
            (add_size total n)
            (P.parse (P.commit n p) c).0
            (let c' = (P.parse (P.commit n p) c).1 in if is_need_more_input c' then success else c')
  unfolding arrived parsed
  arrived-enough total p c n ok enough = ground (arith, E.failed_of_eof c)

  -- From a parser without a header, after reads that leave it hungry, the first read after which it
  -- has the header, or reports something else than a need for input, completes
  -- `async_read_header`: with the code of `parse`, but success in place of a need for input, with
  -- the count of all bytes modulo 2 ^ 64, and with the parser fed each read.
  pub async_read_header_succeeds :
      (p : P.State) (ds : List (Code × List ℕ)) (c : Code) (bytes : List ℕ) (es : List (Event Code))
      → P.got_header p ≡ false
      → IsHungry p ds
      → failed c ≡ false
      → (not (is_need_more_input (parse_last p ds c bytes).1)
          || P.got_header (parse_last p ds c bytes).0)
        ≡ true
      → run E P (read_header_op E P) (async_read_header E P p) (reads ds ++ arrival c bytes ∷ es)
        ≡ upcall E P ((bytes_of ds + length bytes) % size_mod) (parse_last p ds c bytes).0 (
            if is_need_more_input (parse_last p ds c bytes).1
            then success
            else (parse_last p ds c bytes).1)
  async_read_header_succeeds p ds c bytes es h hungry ok enough =
      run-last p ds c bytes es h hungry
      ∙ rw
          (
            arrived-enough (count 0 ds) (P.store bytes (P.prepare (feed p ds))) c (length bytes) ok
                enough,
            add_size-count 0 ds (length bytes),
            add_size_lem (bytes_of ds + length bytes),
          )
          (run-upcall _ _ _ es)
