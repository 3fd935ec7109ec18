-- ===== src/Example/Pair.antt =====
-- Messages of a fixed length, for the parser of two-byte messages and that of pages.
use http_io.Common.{
  ℕ, ◌≤◌, ◌≡◌, refl, sym, ap, ◌∙◌, Bool, true, List, [], ◌∷◌, ◌++◌, arith, length, drop, take, ◌==◌,
  ==_iff, take_all, length-append, length-take_exact, take-append-drop, drop-append_self,
}
use http_io.Parser
use http_io.Framing.{IsPrefixFree, IsStarting}
use http_io.Example.{two_bytes}
use http_io.Example.Page.{
  Phase, waiting, open_page, pages, page_responses, page_responses-IsLawful, input_of, has_two,
  add-input, use_up-keeps, used_of, avail_of,
}
use http_io.Client.Libraries.{IsDecoding}

abbrev pub has_length : ℕ → List ℕ → Bool
has_length n s = length s == n

empty_of_length : (xs : List ℕ) → length xs ≡ 0 → xs ≡ []
empty_of_length [] h = refl
empty_of_length (x ∷ xs) h = absurd (omega arith)

pub has_length-IsPrefixFree : (n : ℕ) → IsPrefixFree (has_length n)
has_length-IsPrefixFree n m rest whole more = empty_of_length rest (
    omega (
      arith,
      length-append m rest,
      (==_iff (length m) n).0 whole,
      (==_iff (length (m ++ rest)) n).0 more,
    ))

-- What has enough bytes starts with a message.
pub starts_with :
    (n : ℕ) (xs : List ℕ)
    → n ≤ length xs
    → (m rest : List ℕ) × (xs ≡ m ++ rest) × (has_length n m ≡ true)
starts_with n xs h = (
  take n xs,
  drop n xs,
  sym (take-append-drop n xs),
  (==_iff (length (take n xs)) n).1 (length-take_exact n xs h),
)

drop_message : (n : ℕ) (m rest : List ℕ) → has_length n m ≡ true → drop n (m ++ rest) ≡ rest
drop_message n m rest h =
    ap (λ k. drop k (m ++ rest)) (sym ((==_iff (length m) n).0 h)) ∙ drop-append_self m rest

abbrev pub two_bytes-IsRecording : Parser.IsRecording two_bytes (has_length 2)
two_bytes-IsRecording = record {
  input = λ p. p.input;
  input-prepare = λ p. refl;
  input-commit = λ bytes p. ap (λ l. p.input ++ l) (take_all bytes);
  input-commit_eof = λ p. refl;
  input-parse = λ p c. refl;
  whole_of_complete = λ p h. starts_with 2 p.input (ground arith);
}

pub two_bytes-IsStarting : IsStarting two_bytes (has_length 2) two_bytes-IsRecording
two_bytes-IsStarting p m rest done starts whole = ap (drop 2) starts ∙ drop_message 2 m rest whole

pub page_whole :
    (f : Phase)
    → has_two f ≡ true
    → (m rest : List ℕ) × (input_of f ≡ m ++ rest) × (has_length 3 m ≡ true)
page_whole waiting h = cc
page_whole (open_page k used avail) h =
    starts_with 3 (k ∷ (used ++ avail)) (ground (arith, length-append used avail))

abbrev pub pages-IsRecording : Parser.IsRecording pages (has_length 3)
pages-IsRecording = record {
  input = λ p. input_of p.phase;
  input-prepare = λ p. refl;
  input-commit = λ bytes p.
      add-input (take (length bytes) bytes) p.phase
      ∙ ap (λ l. input_of p.phase ++ l) (take_all bytes);
  input-commit_eof = λ p. refl;
  input-parse = λ p c. refl;
  whole_of_complete = λ p h. page_whole p.phase h;
}

pub page_body : (f : Phase) → used_of f ++ avail_of f ≡ drop 1 (input_of f)
page_body waiting = refl
page_body (open_page k used avail) = refl

abbrev pub page_responses-IsDecoding :
    IsDecoding pages page_responses (has_length 3) pages-IsRecording page_responses-IsLawful
page_responses-IsDecoding = record {
  body_of = drop 1;
  input-consume_body = λ n p. (use_up-keeps n p.phase).2;
  input-start-reset = λ p. refl;
  body_lem = λ p done whole. page_body p.phase;
}
