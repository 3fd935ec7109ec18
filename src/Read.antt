-- ===== src/Read.antt =====
-- include/boost/http_io/impl/read.hpp: what its two composed operations share, and how the event
-- loop drives one of them. The operations and their laws are in the child modules.
pub mod Header
pub mod Body
pub mod Run
pub mod Loop
pub mod Keeps
pub mod Input
use http_io.Common.{ℕ, Bool, true, false, List, [], ◌∷◌, length}
use http_io.System.{ErrorCodes}
use http_io.Asio.{
  Action, post, initiate, complete, ended, assert_failed, Point, suspended, terminated,
}
use http_io.Parser.{Parser}

-- The members of the coroutine objects that change; the parser is kept beside them.
pub record ReadOp : Type 0 where
  pub point : Point
  pub total_bytes : ℕ

-- stream_.async_read_some(pr_.prepare(), std::move(self))
pub data ReadSome : Type 0 where
  read_some : ReadSome

-- What the event loop does next: run the posted handler, or complete the pending read with a code
-- after the stream has written bytes into the parser's buffer.
pub data Event (C : Type 0) : Type 0 where
  run_posted : Event C
  arrival : C → List ℕ → Event C

module _ (E : ErrorCodes) (P : Parser E) where
  open E use {Code}

  -- What one call of `operator()` leaves.
  pub record Turn : Type 0 where
    pub op : ReadOp
    pub parser : P.State
    pub action : Action Code ReadSome

  -- The label `upcall`: self.complete(ec, total_bytes_)
  abbrev pub upcall : ℕ → P.State → Code → Turn
  upcall total p ec = record {
    op = record { point = terminated; total_bytes = total };
    parser = p;
    action = complete ec total;
  }

  abbrev pub read_more : ℕ → P.State → Turn
  read_more total p = record {
    op = record { point = suspended; total_bytes = total };
    parser = P.prepare p;
    action = initiate read_some;
  }

  -- The calls of one `operator()`.
  abbrev pub Call : Type 0
  Call = ReadOp → P.State → Code → ℕ → Turn

  -- An event that the operation does not wait for leaves it alone.
  unfoldable pub deliver : Call → Action Code ReadSome → Turn → Event Code → Turn
  deliver call (post ec n) t run_posted = call t.op t.parser ec n
  deliver call (post ec n) t (arrival c bytes) = t
  deliver call (initiate r) t run_posted = t
  deliver call (initiate r) t (arrival c bytes) =
      call t.op (P.store bytes t.parser) c (length bytes)
  deliver call (complete ec n) t e = t
  deliver call ended t e = t
  deliver call assert_failed t e = t

  unfoldable pub run : Call → Turn → List (Event Code) → Turn
  run call t [] = t
  run call t (e ∷ es) = run call (deliver call t.action t e) es
