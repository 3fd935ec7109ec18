-- ===== src/Client/Stream.antt =====
-- The class any_stream of example/client/flex_await/main.cpp.
use http_io.Common.{ℕ, Bool, true, false, if◌then◌else◌}
use http_io.Asio.{Action, initiate, complete}

-- What `std::visit` calls on the stream that the variant holds: `transfer` is the async_read_some
-- or the async_write_some of either; `close` is that of a plain stream, with its code handed to
-- asio::async_immediate; `tls_shutdown` is the async_shutdown of a TLS stream.
pub data StreamCall : Type 0 where
  transfer close tls_shutdown : StreamCall

-- A lambda of a composed operation: its member `init`, and what its last call does.
pub record Forward (C : Type 0) : Type 0 where
  pub init : Bool
  pub action : Action C StreamCall

-- `secure` says that the variant holds a TLS stream.
unfoldable pub shutdown_call : Bool → StreamCall
shutdown_call secure = if secure then tls_shutdown else close

module _ {C : Type 0} where
  -- `std::exchange(init, true)` tells the first call from the second.
  forward : StreamCall → Bool → C → ℕ → Forward C
  forward request init ec n = record {
    init = true;
    action = if init then complete ec n else initiate request;
  }

  unfoldable pub async_transfer : C → Forward C
  unfolding forward
  async_transfer success = forward transfer false success 0

  unfoldable pub async_shutdown : Bool → C → Forward C
  unfolding forward shutdown_call
  async_shutdown secure success = forward (shutdown_call secure) false success 0

  -- The completion of the call on the stream calls the lambda again.
  unfoldable pub resume : Action C StreamCall → Forward C → C → ℕ → Forward C
  unfolding forward
  resume (initiate request) f ec n = forward request f.init ec n
  resume a f ec n = f
