-- ===== src/Parser.antt =====
-- The part of http_proto::parser that the sources call. Boost.Http.Proto is not part of this
-- repository, so the parser is a parameter.
use http_io.Common.{ℕ, ◌≡◌, Bool, true, false, List, ◌++◌, length}
use http_io.System.{ErrorCodes}

pub record Parser (E : ErrorCodes) : Type 1 where
  pub State : Type 0
  pub got_header : State → Bool
  pub is_complete : State → Bool
  -- `prepare` makes room, and `store` is what the stream writes into that room.
  pub prepare : State → State
  pub store : List ℕ → State → State
  pub commit : ℕ → State → State
  pub commit_eof : State → State
  -- `parse(ec)` with the code before and after.
  pub parse : State → E.Code → State × E.Code
  pub reset : State → State
  pub start : State → State

-- What the sources rely on. `complete_of_parse` is asserted in read_body_op.
pub record IsLawful (E : ErrorCodes) (P : Parser E) : Type 0 where
  pub complete_of_parse :
      (p : P.State) (c : E.Code)
      → E.failed (P.parse p c).1 ≡ false
      → P.is_complete (P.parse p c).0 ≡ true
  pub header_of_complete : (p : P.State) → P.is_complete p ≡ true → P.got_header p ≡ true
  -- Once the end of the stream is known, more input is not asked for.
  pub eof_decides :
      (p : P.State) (c : E.Code) → E.is_need_more_input (P.parse (P.commit_eof p) c).1 ≡ false
  pub incomplete_of_need_more :
      (p : P.State) (c : E.Code)
      → E.is_need_more_input (P.parse p c).1 ≡ true
      → P.is_complete (P.parse p c).0 ≡ false

-- All the operations of a read keep what is said of the parser's state.
pub record IsKeptByReads {E : ErrorCodes} (P : Parser E) (Q : P.State → Type 0) : Type 0 where
  pub prepare_keeps : (p : P.State) → Q p → Q (P.prepare p)
  pub store_keeps : (bytes : List ℕ) (p : P.State) → Q p → Q (P.store bytes p)
  pub commit_keeps : (n : ℕ) (p : P.State) → Q p → Q (P.commit n p)
  pub commit_eof_keeps : (p : P.State) → Q p → Q (P.commit_eof p)
  pub parse_keeps : (p : P.State) (c : E.Code) → Q p → Q (P.parse p c).0

-- The parser keeps the bytes that are committed to it, and it is complete only when they start with
-- a whole message.
pub record IsRecording {E : ErrorCodes} (P : Parser E) (is_whole : List ℕ → Bool) : Type 0 where
  pub input : P.State → List ℕ
  pub input-prepare : (p : P.State) → input (P.prepare p) ≡ input p
  pub input-commit :
      (bytes : List ℕ) (p : P.State)
      → input (P.commit (length bytes) (P.store bytes p)) ≡ input p ++ bytes
  pub input-commit_eof : (p : P.State) → input (P.commit_eof p) ≡ input p
  pub input-parse : (p : P.State) (c : E.Code) → input (P.parse p c).0 ≡ input p
  pub whole_of_complete :
      (p : P.State)
      → P.is_complete p ≡ true
      → (message rest : List ℕ) × (input p ≡ message ++ rest) × (is_whole message ≡ true)
