-- ===== src/Serializer.antt =====
-- The part of http_proto::serializer that the sources call. Boost.Http.Proto is not part of this
-- repository, so the serializer is a parameter.
use http_io.Common.{ℕ, ◌≤◌, ◌≡◌, Bool, true, ◌↔◌, List, [], ◌++◌, drop, length}
use http_io.System.{ErrorCodes}

-- A sequence of buffers, each a list of bytes.
abbrev pub Buffers : Type 0
Buffers = List (List ℕ)

-- system::result<const_buffers_type>
pub data Prepared (C : Type 0) : Type 0 where
  buffers : Buffers → Prepared C
  error : C → Prepared C

pub record Serializer (E : ErrorCodes) : Type 1 where
  pub State : Type 0
  pub prepare : State → State × Prepared E.Code
  pub consume : ℕ → State → State
  pub is_done : State → Bool

-- The bytes of all buffers.
abbrev pub flatten : Buffers → List ℕ
flatten [] = []
flatten (List.◌∷◌ b bs) = b ++ flatten bs

-- What the documentation says of a serializer for a message that is in memory: there are bytes
-- left to send, `prepare` gives a first part of them, and `consume` drops what has been sent.
pub record IsLawful (E : ErrorCodes) (S : Serializer E) : Type 0 where
  pub remaining : S.State → List ℕ
  pub remaining-prepare : (s : S.State) → remaining (S.prepare s).0 ≡ remaining s
  pub prepare_prefix :
      (s : S.State) (bs : Buffers)
      → (S.prepare s).1 ≡ buffers bs
      → (rest : List ℕ) × (remaining s ≡ flatten bs ++ rest)
  pub remaining-consume :
      (s : S.State) (n : ℕ)
      → n ≤ length (remaining s)
      → remaining (S.consume n s) ≡ drop n (remaining s)
  pub is_done_iff : (s : S.State) → (S.is_done s ≡ true) ↔ (remaining s ≡ [])
