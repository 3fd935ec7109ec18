-- ===== src/Example.antt =====
-- Concrete codes, a parser, a serializer and libraries, by which the tests run the operations. They
-- show that what the development assumes of Boost can hold.
pub mod Page
pub mod Pair
use mathlib.Core.List.{append-nil}
use http_io.Common.{
  ℕ, ◌≡◌, refl, sym, ap, subst, ◌∙◌, Bool, true, false, not, ◌&&◌, ◌↔◌, List, [], ◌∷◌, ◌++◌, none,
  some, arith, length, take, drop, ◌==◌, leb, if◌then◌else◌,
}
use http_io.System.{ErrorCodes}
use http_io.Parser
use http_io.Parser.{Parser}
use http_io.Serializer
use http_io.Serializer.{Serializer, Buffers, Prepared, buffers, error, flatten}
use http_io.Text.{Text, codes}
use http_io.Server.Request.{Libraries, Request, Effect, set_keep_alive}
use http_io.Server.Worker.{Messages, Setup}

-- 0 is success, 1 the end of the stream, 2 operation_aborted and 3 need_more_input; 4 and more are
-- other errors.
abbrev pub numbers : ErrorCodes
numbers = record {
  Code = ℕ;
  success = 0;
  failed = λ c. not (c == 0);
  is_eof = λ c. c == 1;
  is_aborted = λ c. c == 2;
  is_need_more_input = λ c. c == 3;
  failed-success = refl;
  failed_of_eof = λ c h. ground arith;
  failed_of_aborted = λ c h. ground arith;
  failed_of_need_more_input = λ c h. ground arith;
  eof_of_aborted = λ c h. ground arith;
}

-- A message is two bytes, the first of which is its header.
pub record TwoBytes : Type 0 where
  pub stored : List ℕ
  pub input : List ℕ
  pub at_end : Bool

abbrev parse_two : TwoBytes → ℕ → TwoBytes × ℕ
parse_two p c = (p, if leb 2 (length p.input) then 0 else if p.at_end then 5 else 3)

abbrev pub fresh : TwoBytes
fresh = record { stored = []; input = []; at_end = false }

abbrev pub two_bytes : Parser numbers
two_bytes = record {
  State = TwoBytes;
  got_header = λ p. leb 1 (length p.input);
  is_complete = λ p. leb 2 (length p.input);
  prepare = λ p. p;
  store = λ bytes p. record p { stored = bytes };
  commit = λ n p. record p { input = p.input ++ take n p.stored; stored = [] };
  commit_eof = λ p. record p { at_end = true };
  parse = parse_two;
  reset = λ p. fresh;
  start = λ p. record fresh { input = drop 2 p.input };
}

pub two_bytes-IsLawful : Parser.IsLawful numbers two_bytes
two_bytes-IsLawful = record {
  complete_of_parse = λ p c h. ground arith;
  header_of_complete = λ p h. ground arith;
  eof_decides = λ p c. ground arith;
  incomplete_of_need_more = λ p c h. ground arith;
}

abbrev is_empty : List ℕ → Bool
is_empty [] = true
is_empty (x ∷ xs) = false

pub is_empty_iff : (s : List ℕ) → (is_empty s ≡ true) ↔ (s ≡ [])
is_empty_iff [] = (λ _. refl, λ _. refl)
is_empty_iff (x ∷ xs) = (λ h. cc, λ h. cc)

-- The bytes of a message, offered whole.
abbrev pub bytes_left : Serializer numbers
bytes_left = record {
  State = List ℕ;
  prepare = λ s. (s, buffers (s ∷ []));
  consume = λ n s. drop n s;
  is_done = is_empty;
}

abbrev offered : Prepared ℕ → Buffers
offered (buffers bs) = bs
offered (error c) = []

pub prepare_prefix :
    (s : List ℕ) (bs : Buffers)
    → ◌≡◌ {A = Prepared ℕ} (buffers (s ∷ [])) (buffers bs)
    → (rest : List ℕ) × (s ≡ flatten bs ++ rest)
prepare_prefix s bs h = (
  [],
  subst (λ b. s ≡ flatten b ++ []) (ap offered h) (sym (append-nil (s ++ []) ∙ append-nil s)),
)

abbrev pub bytes_left-IsLawful : Serializer.IsLawful numbers bytes_left
bytes_left-IsLawful = record {
  remaining = λ s. s;
  remaining-prepare = λ s. refl;
  prepare_prefix = prepare_prefix;
  remaining-consume = λ s n h. refl;
  is_done_iff = is_empty_iff;
}

-- A file "/srv/a.txt" of five bytes; every host is an authority but "bad".
abbrev is_text : Text → Text → Bool
is_text [] [] = true
is_text [] (d ∷ ds) = false
is_text (c ∷ cs) [] = false
is_text (c ∷ cs) (d ∷ ds) = c == d && is_text cs ds

abbrev pub one_file : Libraries numbers
one_file = record {
  Authority = Text;
  parse_authority = λ host. if is_text host (codes "bad") then none else some host;
  host_address = λ a. a;
  port = λ a. codes "80";
  ci_is_equal = is_text;
  obsolete_reason = λ code. codes "Reason";
  open_file = λ path. if is_text path (codes "/srv/a.txt") then 0 else 4;
  file_size = λ path. (0, 5);
}

abbrev pub srv : Setup
srv = record { msvc = false; doc_root = codes "/srv/" }

abbrev pub get_a : Request
get_a = record { target_text = codes "/a.txt"; host = some (codes "h"); keep_alive = true }

abbrev last_keep_alive : Bool → List Effect → Bool
last_keep_alive b [] = b
last_keep_alive b (set_keep_alive k ∷ es) = last_keep_alive k es
last_keep_alive b (e ∷ es) = last_keep_alive b es

-- Every message is the request for that file, and every response is sent as one byte.
abbrev pub plain_messages : Messages two_bytes bytes_left
plain_messages = record {
  get = λ p. get_a;
  start = λ es s. 7 ∷ [];
  keep_alive = last_keep_alive true;
}
