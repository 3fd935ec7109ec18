-- ===== src/Initiating.antt =====
-- The initiating functions of the library: what an operation waits for when they return.
use http_io.Common.{ℕ, ◌≡◌, refl, Bool, true, arith}
use http_io.System.{ErrorCodes}
use http_io.Asio.{Action, post, initiate, complete, ended, assert_failed, Point, posted, suspended}
use http_io.Parser.{Parser}
use http_io.Read.{Turn}
use http_io.Read.Header.{read_header_op, async_read_header}
use http_io.Read.Body.{started, begin_body}
use http_io.Read.Body.Laws.{async_body, async_body-started}
use http_io.Serializer.{Serializer, Prepared, buffers, error}
use http_io.Write.Some.{prepared, async_write_some}
use http_io.Write.All.{async_write}
use http_io.Write.All.Laws.{async_write-starts}

-- The coroutine waits for the executor or for the stream, at the point where that resumes it.
abbrev pub Waits : {C I : Type 0} → Action C I → Point → Type 0
Waits (post c n) at = at ≡ posted
Waits (initiate i) at = at ≡ suspended
Waits (complete c n) at = ⊥
Waits ended at = ⊥
Waits assert_failed at = ⊥

module _ (E : ErrorCodes) (P : Parser E) (S : Serializer E) where
  async_read_header-Waits :
      (p : P.State) → let t = async_read_header E P p in Waits t.action t.op.point
  unfolding async_read_header read_header_op
  async_read_header-Waits p = ground arith

  begin_body-Waits :
      (some_ : Bool) (p : P.State) → let t = begin_body E P some_ p in Waits t.action t.op.point
  unfolding begin_body
  begin_body-Waits some_ p = ground arith

  prepared-Waits :
      (s : S.State) (r : Prepared E.Code) (n : ℕ)
      → let t = prepared E S true (s, r) n in Waits t.action t.point
  unfolding prepared
  prepared-Waits s (buffers bs) n = refl
  prepared-Waits s (error c) n = refl

  async_write_some-Waits : (s : S.State) → let t = async_write_some E S s in Waits t.action t.point
  unfolding async_write_some
  async_write_some-Waits s = prepared-Waits (S.prepare s).0 (S.prepare s).1 0

  -- No operation completes before its initiating function has returned, whatever state the parser or
  -- the serializer is in, errors and finished messages included: `async_read_header`, and `async_read`
  -- and `async_read_some` where they start, wait for the executor or the stream, and so do
  -- `async_write_some`, and `async_write` with the `async_write_some` that it starts.
  pub initiating-Waits :
      (some_ : Bool) (p q : P.State) (t : Turn E P) (s : S.State)
      → async_body E P some_ q ≡ started t
      → (let h = async_read_header E P p in Waits h.action h.op.point)
        × Waits t.action t.op.point
        × (let u = async_write_some E S s in Waits u.action u.point)
        × (let w = async_write E S s in
            Waits w.action w.op.point × Waits w.some_turn.action w.some_turn.point)
  initiating-Waits some_ p q t s h = (
    async_read_header-Waits p,
    rw (async_body-started E P some_ q t h) (begin_body-Waits some_ q),
    async_write_some-Waits s,
    let (a, at, some_turn) = async_write-starts E S s in
        (rw a at, rw some_turn (async_write_some-Waits s)),
  )
