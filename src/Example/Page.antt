-- ===== src/Example/Page.antt =====
-- A parser of responses that are one byte of header and two bytes of body, for the client, with URLs
-- and a network to match.
use mathlib.Core.List.{append-nil, append_assoc}
use http_io.Common.{
  ℕ, ◌+◌, ◌≡◌, refl, sym, ap, ◌∙◌, take-append-drop, Bool, true, false, List, [], ◌∷◌, ◌++◌, none,
  some, ◌==◌, leb, if◌then◌else◌, arith, length, take, drop, length-append,
}
use http_io.Parser
use http_io.Parser.{Parser, IsKeptByReads}
use http_io.Text.{Text, codes}
use http_io.Client.Libraries
use http_io.Client.Libraries.{Urls, Response, ResponseParser, Network}
use http_io.Client.Visit.{Visit, RequestCall}
use http_io.Example.{numbers}

-- The header, what was consumed of the body, and what is available of it.
pub data Phase : Type 0 where
  waiting : Phase
  open_page : ℕ → List ℕ → List ℕ → Phase

pub record Page : Type 0 where
  pub stored : List ℕ
  pub phase : Phase
  pub at_end : Bool

abbrev add : List ℕ → Phase → Phase
add [] waiting = waiting
add (b ∷ bs) waiting = open_page b [] bs
add bs (open_page h used avail) = open_page h used (avail ++ bs)

abbrev is_open : Phase → Bool
is_open waiting = false
is_open (open_page h used avail) = true

abbrev pub has_two : Phase → Bool
has_two waiting = false
has_two (open_page h used avail) = leb 2 (length used + length avail)

abbrev pub used_of : Phase → List ℕ
used_of waiting = []
used_of (open_page h used avail) = used

abbrev pub avail_of : Phase → List ℕ
avail_of waiting = []
avail_of (open_page h used avail) = avail

abbrev pub input_of : Phase → List ℕ
input_of waiting = []
input_of (open_page h used avail) = h ∷ (used ++ avail)

abbrev use_up : ℕ → Phase → Phase
use_up n waiting = waiting
use_up n (open_page h used avail) = open_page h (used ++ take n avail) (drop n avail)

-- A header byte 82 redirects to "b".
abbrev response_of : Phase → Response
response_of waiting = record { status = 200; location = none }
response_of (open_page h used avail) =
    if h == 82
    then record { status = 302; location = some (codes "b") }
    else record { status = 200; location = none }

abbrev parse_page : Page → ℕ → Page × ℕ
parse_page p c = (p, if has_two p.phase then 0 else if p.at_end then 5 else 3)

abbrev pub blank : Page
blank = record { stored = []; phase = waiting; at_end = false }

abbrev pub pages : Parser numbers
pages = record {
  State = Page;
  got_header = λ p. is_open p.phase;
  is_complete = λ p. has_two p.phase;
  prepare = λ p. p;
  store = λ bytes p. record p { stored = bytes };
  commit = λ n p. record p { phase = add (take n p.stored) p.phase; stored = [] };
  commit_eof = λ p. record p { at_end = true };
  parse = parse_page;
  reset = λ p. blank;
  start = λ p. blank;
}

has_two-is_open : (f : Phase) → has_two f ≡ true → is_open f ≡ true
has_two-is_open waiting h = h
has_two-is_open (open_page k used avail) h = refl

pub pages-IsLawful : Parser.IsLawful numbers pages
pages-IsLawful = record {
  complete_of_parse = λ p c h. ground arith;
  header_of_complete = λ p h. has_two-is_open p.phase h;
  eof_decides = λ p c. ground arith;
  incomplete_of_need_more = λ p c h. ground arith;
}

pub add-is_open : (bs : List ℕ) (f : Phase) → is_open f ≡ true → is_open (add bs f) ≡ true
add-is_open [] waiting h = h
add-is_open (b ∷ bs) waiting h = refl
add-is_open bs (open_page k used avail) h = refl

pub add-used : (bs : List ℕ) (f : Phase) → used_of (add bs f) ≡ used_of f
add-used [] waiting = refl
add-used (b ∷ bs) waiting = refl
add-used bs (open_page k used avail) = refl

pub add-input : (bs : List ℕ) (f : Phase) → input_of (add bs f) ≡ input_of f ++ bs
add-input [] waiting = refl
add-input (b ∷ bs) waiting = refl
add-input bs (open_page k used avail) =
    ap (λ (l : List ℕ). k ∷ l) (sym (append_assoc used avail bs))

abbrev pub page_responses : ResponseParser pages
page_responses = record {
  get = λ p. response_of p.phase;
  pull_body = λ p. avail_of p.phase ∷ [];
  consume_body = λ n p. record p { phase = use_up n p.phase };
}

length-take-drop : (n : ℕ) (xs : List ℕ) → length (take n xs) + length (drop n xs) ≡ length xs
length-take-drop ℕ.zero xs = omega arith
length-take-drop (ℕ.suc n) [] = omega arith
length-take-drop (ℕ.suc n) (x ∷ xs) = omega (arith, length-take-drop n xs)

pub use_up-keeps :
    (n : ℕ) (f : Phase)
    → (is_open (use_up n f) ≡ is_open f)
      × (has_two (use_up n f) ≡ has_two f)
      × (input_of (use_up n f) ≡ input_of f)
use_up-keeps n waiting = (refl, refl, refl)
use_up-keeps n (open_page h used avail) = (
  refl,
  ground (arith, length-take-drop n avail, length-append used (take n avail)),
  ap (λ (l : List ℕ). h ∷ l)
      (append_assoc used (take n avail) (drop n avail)
        ∙ ap (λ (l : List ℕ). used ++ l) (take-append-drop n avail)),
)

pub use_up-moves :
    (n : ℕ) (f : Phase)
    → (avail_of (use_up n f) ≡ drop n (avail_of f))
      × (used_of (use_up n f) ≡ used_of f ++ take n (avail_of f))
use_up-moves ℕ.zero waiting = (refl, refl)
use_up-moves (ℕ.suc n) waiting = (refl, refl)
use_up-moves n (open_page h used avail) = (refl, refl)

abbrev pub page_responses-IsLawful : Libraries.IsLawful pages page_responses
page_responses-IsLawful = record {
  available = λ p. avail_of p.phase;
  consumed = λ p. used_of p.phase;
  pull_body_lem = λ p. append-nil (avail_of p.phase);
  available-consume_body = λ n p h. (use_up-moves n p.phase).0;
  consumed-consume_body = λ n p h. (use_up-moves n p.phase).1;
  header-consume_body = λ n p. (use_up-keeps n p.phase).0;
  complete-consume_body = λ n p. (use_up-keeps n p.phase).1;
  consumed-start = λ p. refl;
  header_kept = record {
    prepare_keeps = λ p h. h;
    store_keeps = λ bytes p h. h;
    commit_keeps = λ n p h. add-is_open (take n p.stored) p.phase h;
    commit_eof_keeps = λ p h. h;
    parse_keeps = λ p c h. h;
  };
  consumed_kept = λ bytes. record {
    prepare_keeps = λ p h. h;
    store_keeps = λ more p h. h;
    commit_keeps = λ n p h. add-used (take n p.stored) p.phase ∙ h;
    commit_eof_keeps = λ p h. h;
    parse_keeps = λ p c h. h;
  };
}

-- Every text is a URL without a port, of the scheme "http" but for "a", which is of "https".
abbrev pub short_urls : Urls
short_urls = record {
  Url = Text;
  parse_uri = λ t. some t;
  host = λ u. u;
  scheme = λ u. elim u [
    | [] ↦ codes "http"
    | c ∷ cs ↦ if c == b'a' then codes "https" else codes "http"
  ];
  has_port = λ u. false;
  port = λ u. [];
  encoded_target = λ u. [];
}

abbrev pub small_network : Network numbers
small_network = record {
  Results = ℕ;
  set_host_name = λ host. none;
  is_stream_truncated = λ c. c == 9;
}

-- A serializer of one byte, whatever the request is.
abbrev pub started : List RequestCall → List ℕ
started calls = 7 ∷ []

abbrev pub secure_visit : Visit
secure_visit = record { host = codes "a"; service = codes "https"; target = codes "/" }
