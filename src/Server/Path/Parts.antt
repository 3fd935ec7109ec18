-- ===== src/Server/Path/Parts.antt =====
-- What path_cat keeps of the base and of the path.
use mathlib.Core.List.{map-append}
use http_io.Common.{
  ℕ, ◌≡◌, refl, sym, ap, ◌∙◌, ◌⊎◌, inl, inr, Bool, true, false, [], ◌∷◌, ◌++◌, map, arith, ◌==◌,
  ==_iff, if◌then◌else◌, Bool-cases,
}
use http_io.Text.{Text, contains, starts_with, back, drop_back}
use http_io.Text.Find.{Lacks, drop_back-back}
use http_io.Server.Path.{path_cat, normalize, separator}

-- A byte of the path under BOOST_MSVC.
abbrev backslashed : ℕ → ℕ
backslashed c = if c == b'/' then 0x5c else c

abbrev pub dots : Text
dots = b'.' ∷ b'.' ∷ []

-- `root` is the base, without the separator that it may end in.
abbrev pub IsRootOf : Bool → Text → Text → Type 0
IsRootOf msvc base root = (base ≡ root) ⊎ (base ≡ root ++ separator msvc ∷ [])

starts_with-backslashed :
    (s p : Text) → Lacks b'/' p → Lacks 0x5c p → starts_with (map backslashed s) p ≡ starts_with s p
unfolding starts_with
starts_with-backslashed [] [] h k = refl
starts_with-backslashed (c ∷ s) [] h k = refl
starts_with-backslashed [] (d ∷ p) h k = refl
starts_with-backslashed (c ∷ s) (d ∷ p) h k = ground (arith, starts_with-backslashed s p h.1 k.1)

contains-backslashed :
    (s p : Text) → Lacks b'/' p → Lacks 0x5c p → contains (map backslashed s) p ≡ contains s p
unfolding contains
contains-backslashed [] p h k = refl
contains-backslashed (c ∷ s) p h k =
    rw (starts_with-backslashed (c ∷ s) p h k, contains-backslashed s p h k)

contains-normalize : (msvc : Bool) (s : Text) → contains (normalize msvc s) dots ≡ contains s dots
unfolding normalize
contains-normalize true s = contains-backslashed s dots (refl, (refl, tt)) (refl, (refl, tt))
contains-normalize false s = refl

back-backslashed : (c : ℕ) (s : Text) → back (map backslashed (c ∷ s)) ≡ backslashed (back (c ∷ s))
unfolding back
back-backslashed c [] = refl
back-backslashed c (d ∷ s) = back-backslashed d s

normalize-append :
    (msvc : Bool) (s t : Text) → normalize msvc (s ++ t) ≡ normalize msvc s ++ normalize msvc t
unfolding normalize
normalize-append true s t = map-append backslashed s t
normalize-append false s t = refl

normalize_of_Lacks : (msvc : Bool) (s : Text) → Lacks b'/' s → normalize msvc s ≡ s
unfolding normalize
normalize_of_Lacks true [] h = refl
normalize_of_Lacks true (c ∷ s) h = rw (h.0, normalize_of_Lacks true s h.1)
normalize_of_Lacks false s h = refl

normalize-nil : (msvc : Bool) → normalize msvc [] ≡ []
unfolding normalize
normalize-nil true = refl
normalize-nil false = refl

-- An absolute name, behind a separator of the platform or the slash of the target.
abbrev pub IsSeparator : Bool → ℕ → Type 0
IsSeparator msvc c = (c ≡ b'/') ⊎ (c ≡ separator msvc)

-- The path is what `normalize` makes of the root, and the target behind that, which `normalize` has
-- or has not changed.
pub record Parts (msvc : Bool) (base target path : Text) : Type 0 where
  pub root : Text
  pub slash : ℕ
  pub name : Text
  pub is_root : IsRootOf msvc base root
  pub is_separator : IsSeparator msvc slash
  pub is_path : path ≡ normalize msvc root ++ slash ∷ name
  pub is_name : (slash ∷ name ≡ target) ⊎ (slash ∷ name ≡ normalize msvc target)

normalize-slash :
    (msvc : Bool) (cs : Text) → normalize msvc (b'/' ∷ cs) ≡ separator msvc ∷ normalize msvc cs
unfolding normalize
normalize-slash true cs = refl
normalize-slash false cs = refl

back-normalize :
    (msvc : Bool) (c : ℕ) (s : Text)
    → (back (normalize msvc (c ∷ s)) == b'.') ≡ (back (c ∷ s) == b'.')
unfolding normalize
back-normalize true c s = rw (back-backslashed c s) (ground arith)
back-normalize false c s = refl

normalize-Parts :
    (msvc : Bool) (base root cs : Text)
    → IsRootOf msvc base root
    → Parts msvc base (b'/' ∷ cs) (normalize msvc (root ++ b'/' ∷ cs))
normalize-Parts msvc base root cs h =
    let e = normalize-slash msvc cs in
    record {
      root = root;
      slash = separator msvc;
      name = normalize msvc cs;
      is_root = h;
      is_separator = inr refl;
      is_path = normalize-append msvc root (b'/' ∷ cs) ∙ ap (λ t. normalize msvc root ++ t) e;
      is_name = inr (sym e);
    }

-- `path_cat` is the base without a separator at its end, and an absolute name behind that.
pub path_cat-Parts :
    (msvc : Bool) (base cs : Text) → Parts msvc base (b'/' ∷ cs) (path_cat msvc base (b'/' ∷ cs))
unfolding path_cat normalize
path_cat-Parts msvc [] cs = record {
  root = [];
  slash = b'/';
  name = cs;
  is_root = inl refl;
  is_separator = inl refl;
  is_path = rw (normalize-nil msvc);
  is_name = inl refl;
}
path_cat-Parts msvc (c ∷ base) cs = elim (Bool-cases (back (c ∷ base) == separator msvc)) [
  | inl h ↦ rw h (
      normalize-Parts msvc (c ∷ base) (drop_back (c ∷ base)) cs (
        inr (
          sym (drop_back-back c base)
          ∙ ap (λ b. drop_back (c ∷ base) ++ b ∷ []) ((==_iff _ _).0 h))))
  | inr h ↦ rw h (normalize-Parts msvc (c ∷ base) (c ∷ base) cs (inl refl))
]

module _ {msvc : Bool} {base path cs : Text} (p : Parts msvc base (b'/' ∷ cs) path) where
  pub name-dots : contains (p.slash ∷ p.name) dots ≡ contains (b'/' ∷ cs) dots
  name-dots = elim p.is_name [
    | inl e ↦ ap (λ t. contains t dots) e
    | inr e ↦ ap (λ t. contains t dots) e ∙ contains-normalize msvc (b'/' ∷ cs)
  ]

  pub name-end : (back (p.slash ∷ p.name) == b'.') ≡ (back (b'/' ∷ cs) == b'.')
  name-end = elim p.is_name [
    | inl e ↦ ap (λ t. back t == b'.') e
    | inr e ↦ ap (λ t. back t == b'.') e ∙ back-normalize msvc b'/' cs
  ]

  -- The name ends as the target does, from its last dot on.
  pub name-ext :
      (stem ext : Text)
      → (b'/' ∷ cs ≡ stem ++ b'.' ∷ ext)
      → Lacks b'/' ext
      → (front : Text) × (p.slash ∷ p.name ≡ front ++ b'.' ∷ ext)
  name-ext stem ext h lacks = elim p.is_name [
    | inl e ↦ (stem, e ∙ h)
    | inr e ↦ (
      normalize msvc stem,
      e
          ∙ ap (normalize msvc) h
          ∙ normalize-append msvc stem (b'.' ∷ ext)
          ∙ ap (λ t. normalize msvc stem ++ t) (normalize_of_Lacks msvc (b'.' ∷ ext) (refl, lacks)),
    )
  ]
