-- ===== src/Text.antt =====
-- Texts as lists of bytes, with the functions of std::string and string_view that the example server
-- calls.
pub mod Find
use Prim.Native.Char.{code}
use Prim.Native.String.{String}
use http_io.Common.{
  ℕ, zero, suc, ◌+◌, ◌/◌, ◌%◌, Bool, true, false, ◌&&◌, List, [], ◌∷◌, ◌++◌, Option, none, some,
  ◌==◌, if◌then◌else◌,
}

abbrev pub Text : Type 0
Text = List ℕ

-- The bytes of a literal, which is ASCII.
abbrev pub codes : String → Text
codes String.[] = []
codes (String.◌∷◌ c s) = code c ∷ codes s

-- s.starts_with(p)
unfoldable pub starts_with : Text → Text → Bool
starts_with s [] = true
starts_with [] (p ∷ ps) = false
starts_with (c ∷ s) (p ∷ ps) = c == p && starts_with s ps

-- s == t
unfoldable pub equal : Text → Text → Bool
equal [] [] = true
equal [] (d ∷ t) = false
equal (c ∷ s) [] = false
equal (c ∷ s) (d ∷ t) = c == d && equal s t

-- s.find(p) != npos
unfoldable pub contains : Text → Text → Bool
unfolding starts_with
contains [] p = starts_with [] p
contains (c ∷ s) p = if starts_with (c ∷ s) p then true else contains s p

-- s.rfind(c), a single character; `none` is npos.
unfoldable pub rfind : Text → ℕ → Option ℕ
rfind [] c = none
rfind (d ∷ s) c = elim (rfind s c) [
  | some i ↦ some (suc i)
  | none ↦ if d == c then some zero else none
]

-- s.back(), of a text that is not empty.
unfoldable pub back : Text → ℕ
back [] = 0
back (c ∷ []) = c
back (c ∷ (d ∷ s)) = back (d ∷ s)

-- s.resize(s.size() - 1), of a text that is not empty.
unfoldable pub drop_back : Text → Text
drop_back [] = []
drop_back (c ∷ []) = []
drop_back (c ∷ (d ∷ s)) = c ∷ drop_back (d ∷ s)

to_digits : ℕ → ℕ → Text → Text
to_digits zero n digits = digits
to_digits (suc fuel) n digits =
    let digits' = (b'0' + n % 10) ∷ digits in
    let rest = to_digits fuel (n / 10) digits' in if n / 10 == 0 then digits' else rest

-- std::to_string; a number has no more digits than its value, plus one.
unfoldable pub to_string : ℕ → Text
unfolding to_digits
to_string n = to_digits (suc n) n []
