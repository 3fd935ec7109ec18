-- ===== src/Read/Body.antt =====
-- detail::read_body_op, async_read_some and async_read of include/boost/http_io/impl/read.hpp.
pub mod Laws
pub mod Keeps
pub mod Input
pub mod Loop
pub mod Repeat
pub mod Once
use http_io.Common.{ℕ, ◌==◌, if◌then◌else◌, Bool, true, false, Option, none, some}
use http_io.System.{ErrorCodes, add_size}
use http_io.Asio.{post, ended, assert_failed, Point, start, posted, suspended, terminated}
use http_io.Parser.{Parser}
use http_io.Read.{ReadOp, Turn, upcall, read_more}

-- What the `async_` functions give: std::logic_error, or the operation after its first call.
pub data Started {ℓ} (A : Type ℓ) : Type ℓ where
  logic_error : Started A
  started : A → Started A

module _ (E : ErrorCodes) (P : Parser E) where
  open E use {Code, success, failed, is_eof, is_need_more_input}

  -- The end of the loop's body, behind `pr_.parse(ec)`.
  pub parsed : Bool → ℕ → P.State × Code → Turn E P
  parsed some_ total (p, ec) =
      if failed ec
      then if is_need_more_input ec
        then if some_ then upcall E P total p success else read_more E P total p
        else upcall E P total p ec
      else if P.is_complete p
      then upcall E P total p ec
      else record {
        op = record { point = suspended; total_bytes = total };
        parser = p;
        action = assert_failed;
      }

  -- The loop's body, behind the read.
  pub arrived : Bool → ReadOp → P.State → Code → ℕ → Turn E P
  unfolding parsed
  arrived some_ op p ec n =
      let p' = P.commit n p in
      let total = add_size op.total_bytes n in
      if is_eof ec
      then if n == 0
        then parsed some_ total (P.parse (P.commit_eof p') success)
        else record { op = record op { total_bytes = total }; parser = p'; action = assert_failed }
      else if failed ec
      then upcall E P total p' ec
      else parsed some_ total (P.parse p' ec)

  resume : Bool → Point → ReadOp → P.State → Code → ℕ → Turn E P
  unfolding arrived
  resume some_ start op p ec n =
      if P.is_complete p
      then record { op = record op { point = posted }; parser = p; action = post ec 0 }
      else read_more E P op.total_bytes p
  resume some_ posted op p ec n = let (p', ec') = P.parse p ec in upcall E P op.total_bytes p' ec'
  resume some_ suspended op p ec n = arrived some_ op p ec n
  resume some_ terminated op p ec n = record { op = op; parser = p; action = ended }

  -- `operator()`; `some_` is the member of that name, which never changes.
  unfoldable pub read_body_op : Bool → ReadOp → P.State → Code → ℕ → Turn E P
  unfolding resume
  read_body_op some_ op p ec n = resume some_ op.point op p ec n

  unfoldable pub begin_body : Bool → P.State → Turn E P
  unfolding read_body_op
  begin_body some_ p = read_body_op some_ (record { point = start; total_bytes = 0 }) p success 0

  unfoldable pub async_read_some : P.State → Started (Turn E P)
  unfolding begin_body
  async_read_some p = if P.got_header p then started (begin_body true p) else logic_error

  unfoldable pub async_read : P.State → Started (Turn E P)
  unfolding begin_body
  async_read p = if P.got_header p then started (begin_body false p) else logic_error
