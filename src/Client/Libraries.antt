-- ===== src/Client/Libraries.antt =====
-- What example/client/flex_await/main.cpp calls in other libraries: Boost.Url, the response parser
-- of Boost.Http.Proto, Boost.Asio with OpenSSL. They are parameters.
use http_io.Common.{ℕ, ◌≤◌, ◌≡◌, Bool, true, List, [], ◌++◌, Option, take, drop, length}
use http_io.System.{ErrorCodes}
use http_io.Parser.{Parser, IsKeptByReads, IsRecording}
use http_io.Serializer.{Buffers, flatten}
use http_io.Text.{Text}

-- urls::parse_uri and urls::url_view. A URL that does not parse is `none`.
pub record Urls : Type 1 where
  pub Url : Type 0
  pub parse_uri : Text → Option Url
  pub host : Url → Text
  pub scheme : Url → Text
  pub has_port : Url → Bool
  pub port : Url → Text
  pub encoded_target : Url → Text

-- What the client reads of a http_proto::response_view: the status, and the Location field.
pub record Response : Type 0 where
  pub status : ℕ
  pub location : Option Text

-- What http_proto::response_parser has beside the operations of Parser.
pub record ResponseParser {E : ErrorCodes} (P : Parser E) : Type 0 where
  pub get : P.State → Response
  pub pull_body : P.State → Buffers
  pub consume_body : ℕ → P.State → P.State

-- What the documentation says of a body: `pull_body` gives what is available of it, and
-- `consume_body` moves a first part of that behind, and nothing else. Reading neither takes back a
-- header nor consumes a part of the body.
pub record IsLawful {E : ErrorCodes} (P : Parser E) (R : ResponseParser P) : Type 1 where
  pub available : P.State → List ℕ
  pub consumed : P.State → List ℕ
  pub pull_body_lem : (p : P.State) → flatten (R.pull_body p) ≡ available p
  pub available-consume_body :
      (n : ℕ) (p : P.State)
      → n ≤ length (available p)
      → available (R.consume_body n p) ≡ drop n (available p)
  pub consumed-consume_body :
      (n : ℕ) (p : P.State)
      → n ≤ length (available p)
      → consumed (R.consume_body n p) ≡ consumed p ++ take n (available p)
  pub header-consume_body :
      (n : ℕ) (p : P.State) → P.got_header (R.consume_body n p) ≡ P.got_header p
  pub complete-consume_body :
      (n : ℕ) (p : P.State) → P.is_complete (R.consume_body n p) ≡ P.is_complete p
  pub consumed-start : (p : P.State) → consumed (P.start p) ≡ []
  pub header_kept : IsKeptByReads P (λ p. P.got_header p ≡ true)
  pub consumed_kept : (bytes : List ℕ) → IsKeptByReads P (λ p. consumed p ≡ bytes)

-- How the documentation relates the body to the bytes of a response: all of it is available or
-- consumed once the parser is complete. `consume_body` leaves alone what was received, and `reset`
-- and `start` leave nothing of that.
pub record IsDecoding {E : ErrorCodes} (P : Parser E) (R : ResponseParser P)
    (is_whole : List ℕ → Bool) (I : IsRecording P is_whole) (L : IsLawful P R) : Type 0 where
  pub body_of : List ℕ → List ℕ
  pub input-consume_body : (n : ℕ) (p : P.State) → I.input (R.consume_body n p) ≡ I.input p
  pub input-start-reset : (p : P.State) → I.input (P.start (P.reset p)) ≡ []
  pub body_lem :
      (p : P.State)
      → P.is_complete p ≡ true
      → is_whole (I.input p) ≡ true
      → L.consumed p ++ L.available p ≡ body_of (I.input p)

-- Boost.Asio and OpenSSL. `set_host_name` is SSL_set_tlsext_host_name with the error of
-- ERR_get_error, where it fails.
pub record Network (E : ErrorCodes) : Type 1 where
  pub Results : Type 0
  pub set_host_name : Text → Option E.Code
  -- `ec == ssl::error::stream_truncated`
  pub is_stream_truncated : E.Code → Bool
