-- ===== src/Text/Find.antt =====
-- Laws of the text functions.
use http_io.Common.{
  ℕ, suc, ◌≡◌, refl, ap, true, false, [], ◌∷◌, ◌++◌, none, some, arith, ◌==◌, drop, Option-cases,
  inl, inr,
}
use http_io.Text.{Text, starts_with, contains, rfind, back, drop_back}

-- No byte of the text is `c`.
abbrev pub Lacks : ℕ → Text → Type 0
Lacks c [] = Unit
Lacks c (d ∷ s) = ((d == c) ≡ false) × Lacks c s

pub rfind-none : (s : Text) (c : ℕ) → rfind s c ≡ none → Lacks c s
unfolding rfind
rfind-none [] c h = tt
rfind-none (d ∷ s) c h = ground (arith, rfind-none s c)

-- The text from the last `c` on.
pub rfind-some :
    (s : Text) (c i : ℕ) → rfind s c ≡ some i → (r : Text) × (drop i s ≡ c ∷ r) × Lacks c r
unfolding rfind
rfind-some [] c i h = cc
rfind-some (d ∷ s) c i h = elim (Option-cases (rfind s c)) [
  | inl e ↦
      let first : i ≡ 0 = ground arith in
      let same : d ≡ c = ground arith in (s, rw (first, same), rfind-none s c e)
  | inr (j, e) ↦ let later : i ≡ suc j = ground arith in rw later (rfind-some s c j e)
]

pub drop_back-back : (c : ℕ) (s : Text) → drop_back (c ∷ s) ++ back (c ∷ s) ∷ [] ≡ c ∷ s
unfolding drop_back back
drop_back-back c [] = refl
drop_back-back c (d ∷ s) = ap (λ r. c ∷ r) (drop_back-back d s)

pub back-append : (s : Text) (c : ℕ) → back (s ++ c ∷ []) ≡ c
unfolding back
back-append [] c = refl
back-append (d ∷ []) c = refl
back-append (d ∷ (e ∷ s)) c = back-append (e ∷ s) c

pub drop_back-append : (s : Text) (c : ℕ) → drop_back (s ++ c ∷ []) ≡ s
unfolding drop_back
drop_back-append [] c = refl
drop_back-append (d ∷ []) c = refl
drop_back-append (d ∷ (e ∷ s)) c = ap (λ r. d ∷ r) (drop_back-append (e ∷ s) c)

starts_with-nil : (s : Text) → starts_with s [] ≡ true
unfolding starts_with
starts_with-nil [] = refl
starts_with-nil (c ∷ s) = refl

-- Texts that `find` tells apart by their parts.
pub starts_with-append : (s t p : Text) → starts_with s p ≡ true → starts_with (s ++ t) p ≡ true
unfolding starts_with
starts_with-append s t [] h = starts_with-nil (s ++ t)
starts_with-append [] t (c ∷ p) h = cc
starts_with-append (d ∷ s) t (c ∷ p) h = ground (arith, starts_with-append s t p)

-- Behind a text that does not end in a dot, two dots are found in one of the parts only.
pub contains-dots_append :
    (c : ℕ) (s t : Text)
    → (back (c ∷ s) == b'.') ≡ false
    → contains (c ∷ s) (b'.' ∷ b'.' ∷ []) ≡ false
    → contains ((c ∷ s) ++ t) (b'.' ∷ b'.' ∷ []) ≡ contains t (b'.' ∷ b'.' ∷ [])
unfolding contains back starts_with
contains-dots_append c [] t e h = ground arith
contains-dots_append c (d ∷ s) t e h = ground (arith, contains-dots_append d s t e)
