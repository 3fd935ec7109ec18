-- ===== src/Client/State.antt =====
-- What the coroutine request of example/client/flex_await/main.cpp keeps while it waits, what it
-- calls and what it waits for.
use http_io.Common.{ℕ, Bool, List}
use http_io.System.{ErrorCodes}
use http_io.Parser.{Parser}
use http_io.Serializer.{Serializer}
use http_io.Text.{Text}
use http_io.Read
use http_io.Read.{Turn}
use http_io.Write
use http_io.Write.All.{Session}
use http_io.Client.Libraries.{Network}
use http_io.Client.Stream.{StreamCall}
use http_io.Client.Visit.{Visit, RequestCall}

pub data Exception (C : Type 0) : Type 0 where
  system_error : C → Exception C
  -- std::runtime_error{ "Bad redirect response" }
  runtime_error : Exception C
  -- from async_read_some
  logic_error : Exception C

-- What the client calls on the network, in order.
pub data Call (Results : Type 0) : Type 0 where
  resolve : Text → Text → Call Results
  -- `true` for the lowest layer of a TLS stream
  connect : Bool → Results → Call Results
  set_host_name : Text → Call Results
  handshake : Call Results
  -- async_write of the request
  send : List RequestCall → Call Results
  -- any_stream::async_shutdown
  shutdown : StreamCall → Call Results

-- The completions of what the client waits for.
pub data ClientEvent (C Results : Type 0) : Type 0 where
  resolved : C → Results → ClientEvent C Results
  connected handshaken shut_down : C → ClientEvent C Results
  read_event : Read.Event C → ClientEvent C Results
  write_event : Write.Event C → ClientEvent C Results

module _ {E : ErrorCodes} (P : Parser E) (S : Serializer E) (net : Network E) where
  -- The `co_await` at which the client waits; `leaving` is the shutdown before a redirect.
  pub data Pending : Type 0 where
    resolving connecting handshaking leaving : Visit → Pending
    writing : Session E S → Pending
    reading_header reading_body : Turn E P → Pending
    closing returned : Pending
    threw : Exception E.Code → Pending
    -- `url->` where `url` holds an error: the behaviour is undefined.
    undefined : Pending

  -- `secure` says what `stream` holds, and `output` is what std::cout was given.
  pub record Client : Type 0 where
    pub parser : P.State
    pub secure : Bool
    pub output : List ℕ
    pub calls : List (Call net.Results)
    pub pending : Pending
