-- ===== src/Read/Body/Once.antt =====
-- async_read_some makes one read of the stream.
use http_io.Asio.{is_completed}
use http_io.Common.{ℕ, ◌≡◌, true, false, List, [], ◌∷◌, arith, length}
use http_io.System.{ErrorCodes}
use http_io.Asio.{suspended}
use http_io.Parser.{Parser, IsLawful}
use http_io.Read.{ReadOp, Turn, Event, arrival, run}
use http_io.Read.Loop.{IsEofEmpty, run-completed}
use http_io.Read.Body.{started, parsed, arrived, read_body_op, async_read_some}
use http_io.Read.Body.Laws.{async_body-started}
use http_io.Read.Body.Repeat.{begin_body-incomplete, run-arrival, run-nil}

module _ (E : ErrorCodes) (P : Parser E) where
  arrived_some-completes :
      IsLawful E P
      → (op : ReadOp) (p : P.State) (c : E.Code) (n : ℕ) → (E.is_eof c ≡ true → n ≡ 0)
      → is_completed (arrived E P true op p c n).action ≡ true
  unfolding arrived parsed
  arrived_some-completes L op p c n h = ground (
    arith,
    L.complete_of_parse (P.commit n p) c,
    L.complete_of_parse (P.commit_eof (P.commit n p)) E.success,
  )

  -- With a lawful parser that is not complete, `async_read_some` reads from the stream once: it has
  -- completed behind the first read, and no event after that changes anything, if a read that ends
  -- the stream brings no bytes.
  pub async_read_some_once :
      IsLawful E P
      → (p : P.State) (t : Turn E P) (es : List (Event E.Code)) (c : E.Code) (bytes : List ℕ)
      → P.is_complete p ≡ false
      → async_read_some E P p ≡ started t
      → IsEofEmpty E c bytes
      → let t' = run E P (read_body_op E P true) t (arrival c bytes ∷ []) in
        (is_completed t'.action ≡ true)
        × (run E P (read_body_op E P true) t (arrival c bytes ∷ es) ≡ t')
  async_read_some_once L p t es c bytes h s q =
      let op : ReadOp = record { point = suspended; total_bytes = 0 } in
      let after = arrived E P true op (P.store bytes (P.prepare p)) c (length bytes) in
      let done = arrived_some-completes L op (P.store bytes (P.prepare p)) c (length bytes) q in
      rw
        (
          async_body-started E P true p t s,
          begin_body-incomplete E P true p h,
          run-arrival E P true 0 p c bytes [],
          run-arrival E P true 0 p c bytes es,
          run-nil E P true after,
        )
        (done, run-completed E P (read_body_op E P true) after es done)
