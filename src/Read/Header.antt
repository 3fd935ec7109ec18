-- ===== src/Read/Header.antt =====
-- detail::read_header_op and async_read_header of include/boost/http_io/impl/read.hpp.
pub mod Laws
pub mod Keeps
pub mod Input
pub mod Loop
pub mod Feed
use http_io.Common.{ℕ, ◌==◌, if◌then◌else◌}
use http_io.System.{ErrorCodes, add_size}
use http_io.Asio.{post, ended, assert_failed, Point, start, posted, suspended, terminated}
use http_io.Parser.{Parser}
use http_io.Read.{ReadOp, Turn, upcall, read_more}

module _ (E : ErrorCodes) (P : Parser E) where
  open E use {Code, success, failed, is_eof, is_need_more_input}

  -- The end of the loop's body, behind `pr_.parse(ec)`.
  pub parsed : ℕ → P.State × Code → Turn E P
  parsed total (p, ec) =
      if is_need_more_input ec
      then if P.got_header p then upcall E P total p success else read_more E P total p
      else upcall E P total p ec

  -- The loop's body, behind the read.
  pub arrived : ReadOp → P.State → Code → ℕ → Turn E P
  unfolding parsed
  arrived op p ec n =
      let p' = P.commit n p in
      let total = add_size op.total_bytes n in
      if is_eof ec
      then if n == 0
        then parsed total (P.parse (P.commit_eof p') success)
        else record { op = record op { total_bytes = total }; parser = p'; action = assert_failed }
      else if failed ec
      then upcall E P total p' ec
      else parsed total (P.parse p' ec)

  resume : Point → ReadOp → P.State → Code → ℕ → Turn E P
  unfolding arrived
  resume start op p ec n =
      if P.got_header p
      then record { op = record op { point = posted }; parser = p; action = post ec 0 }
      else read_more E P op.total_bytes p
  resume posted op p ec n = upcall E P op.total_bytes p ec
  resume suspended op p ec n = arrived op p ec n
  resume terminated op p ec n = record { op = op; parser = p; action = ended }

  -- `operator()`
  unfoldable pub read_header_op : ReadOp → P.State → Code → ℕ → Turn E P
  unfolding resume
  read_header_op op p ec n = resume op.point op p ec n

  -- The composed operation is called at once, with the default arguments.
  unfoldable pub async_read_header : P.State → Turn E P
  unfolding read_header_op
  async_read_header p = read_header_op (record { point = start; total_bytes = 0 }) p success 0
