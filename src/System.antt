-- ===== src/System.antt =====
-- boost::system::error_code and the errors that include/boost/http_io/impl/*.hpp and the examples
-- compare it with. Boost.System is not part of this repository, so it is a parameter: a type of
-- codes, the tests that the sources make on it, and what the documentation says of these tests.
use http_io.Common.{ℕ, ◌+◌, ◌%◌, ◌^◌, ◌<◌, ◌≡◌, Bool, true, false, arith}

pub record ErrorCodes : Type 1 where
  pub Code : Type 0
  -- `error_code{}`
  pub success : Code
  pub failed : Code → Bool
  -- `ec == asio::error::eof`
  pub is_eof : Code → Bool
  -- `ec == asio::error::operation_aborted`
  pub is_aborted : Code → Bool
  -- `ec == http_proto::condition::need_more_input`
  pub is_need_more_input : Code → Bool
  pub failed-success : failed success ≡ false
  pub failed_of_eof : (c : Code) → is_eof c ≡ true → failed c ≡ true
  pub failed_of_aborted : (c : Code) → is_aborted c ≡ true → failed c ≡ true
  pub failed_of_need_more_input : (c : Code) → is_need_more_input c ≡ true → failed c ≡ true
  pub eof_of_aborted : (c : Code) → is_aborted c ≡ true → is_eof c ≡ false

-- `std::size_t` has 64 bits, and `+=` on it wraps around.
abbrev pub size_mod : ℕ
size_mod = 2 ^ 64

unfoldable pub add_size : ℕ → ℕ → ℕ
add_size a b = (a + b) % size_mod

pub add_size-add_size : (a b c : ℕ) → add_size (add_size a b) c ≡ add_size a (b + c)
unfolding add_size
add_size-add_size a b c = omega arith

pub add_size_exact : (a b : ℕ) → a + b < size_mod → add_size a b ≡ a + b
unfolding add_size
add_size_exact a b h = omega arith

pub add_size-lt : (a b : ℕ) → add_size a b < size_mod
unfolding add_size
add_size-lt a b = omega arith

pub eq_add_size : (a b : ℕ) → a < size_mod → add_size a 0 ≡ add_size 0 b → a ≡ b % size_mod
unfolding add_size
eq_add_size a b h e = omega arith

pub add_size-zero_add : (a b : ℕ) → add_size a (add_size 0 b) ≡ add_size a b
unfolding add_size
add_size-zero_add a b = omega arith

pub add_size_lem : (b : ℕ) → add_size 0 b ≡ b % size_mod
unfolding add_size
add_size_lem b = omega arith
