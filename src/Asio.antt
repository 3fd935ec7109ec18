-- ===== src/Asio.antt =====
-- What a composed operation asks of Boost.Asio at the end of each call of its `operator()`.
pub mod Machine
use http_io.Common.{ℕ, Bool, true, false}

-- `I` is the kind of operation that it may initiate on the stream.
pub data Action (C I : Type 0) : Type 0 where
  -- asio::post(executor, asio::append(std::move(self), ec, n)): call again with `ec` and `n`.
  post : C → ℕ → Action C I
  -- The call suspends in a stream operation, and its completion calls again.
  initiate : I → Action C I
  -- self.complete(ec, n)
  complete : C → ℕ → Action C I
  -- A call after the end of the coroutine does nothing.
  ended : Action C I
  -- BOOST_ASSERT fails.
  assert_failed : Action C I

abbrev pub is_completed : {C I : Type 0} → Action C I → Bool
is_completed (complete c n) = true
is_completed _ = false

-- Where BOOST_ASIO_CORO_REENTER resumes the coroutine.
pub data Point : Type 0 where
  start posted suspended terminated : Point
