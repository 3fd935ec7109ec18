-- ===== src/Framing.antt =====
-- Messages one behind the other in a stream of bytes.
use http_io.Common.{
  ℕ, ◌≡◌, refl, sym, ap, ◌∙◌, ◌⊎◌, inl, inr, Bool, true, List, [], ◌∷◌, ◌++◌, drop,
}
use mathlib.Core.List.{append-nil}
use http_io.System.{ErrorCodes}
use http_io.Parser.{Parser, IsRecording}

-- No whole message is a proper beginning of another.
abbrev pub IsPrefixFree : (List ℕ → Bool) → Type 0
IsPrefixFree is_whole =
    (m rest : List ℕ) → is_whole m ≡ true → is_whole (m ++ rest) ≡ true → rest ≡ []

-- What the documentation says of `start`: it gives up the message that the parser has, and keeps
-- the bytes behind it.
abbrev pub IsStarting :
    {E : ErrorCodes} (P : Parser E) (is_whole : List ℕ → Bool) → IsRecording P is_whole → Type 0
IsStarting P is_whole I =
    (p : P.State) (m rest : List ℕ)
    → P.is_complete p ≡ true
    → I.input p ≡ m ++ rest
    → is_whole m ≡ true
    → I.input (P.start p) ≡ rest

append_first : {x y : ℕ} {xs ys : List ℕ} → x ∷ xs ≡ y ∷ ys → x ≡ y
append_first h = cc

append_both :
    (a b x y : List ℕ)
    → a ++ x ≡ b ++ y
    → ((c : List ℕ) × (b ≡ a ++ c) × (x ≡ c ++ y)) ⊎ ((c : List ℕ) × (a ≡ b ++ c) × (y ≡ c ++ x))
append_both [] b x y h = inl (b, refl, h)
append_both (k ∷ a) [] x y h = inr (k ∷ a, refl, sym h)
append_both (k ∷ a) (l ∷ b) x y h = elim (append_both a b x y (ap (drop 1) h)) [
  | inl (c, e, f) ↦ inl (c, rw (append_first h, e), f)
  | inr (c, e, f) ↦ inr (c, rw (append_first h, e), f)
]

-- In a prefix-free language a stream starts with one message at most.
pub first_message :
    (is_whole : List ℕ → Bool)
    → IsPrefixFree is_whole
    → (a b x y : List ℕ) → is_whole a ≡ true
    → is_whole b ≡ true
    → a ++ x ≡ b ++ y
    → (a ≡ b) × (x ≡ y)
first_message is_whole free a b x y whole_a whole_b h = elim (append_both a b x y h) [
  | inl (c, e, f) ↦
      let none_left = free a c whole_a (rw e at whole_b) in
      (
        sym (append-nil a) ∙ ap (λ l. a ++ l) (sym none_left) ∙ sym e,
        f ∙ ap (λ l. l ++ y) none_left,
      )
  | inr (c, e, f) ↦
      let none_left = free b c whole_b (rw e at whole_a) in
      (e ∙ ap (λ l. b ++ l) none_left ∙ append-nil b, sym (f ∙ ap (λ l. l ++ x) none_left))
]
