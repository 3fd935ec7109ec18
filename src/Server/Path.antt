-- ===== src/Server/Path.antt =====
-- get_extension and path_cat of example/server/main.cpp.
pub mod Parts
use mathlib.Core.List.{append-nil}
use http_io.Common.{
  ℕ, suc, ◌≡◌, ◌≢◌, refl, sym, ap, ◌∙◌, ◌⊎◌, inl, inr, Bool, true, false, [], ◌∷◌, ◌++◌, map, none,
  some, arith, ◌==◌, ==_iff, ==_refl, if◌then◌else◌, drop, take, take-append-drop, Option-cases,
  Bool-cases,
}
use http_io.Text.{Text, rfind, back, drop_back}
use http_io.Text.Find.{Lacks, rfind-none, rfind-some, back-append, drop_back-append, drop_back-back}

unfoldable pub get_extension : Text → Text
get_extension path = elim (rfind path b'.') [ none ↦ [] | some pos ↦ drop pos path ]

-- An extension is empty or begins with a dot, and has no dot behind that.
abbrev pub IsExtension : Text → Type 0
IsExtension ext = (ext ≡ []) ⊎ ((r : Text) × (ext ≡ b'.' ∷ r) × Lacks b'.' r)

-- `get_extension` splits the path in two: the second part is its result, an extension, and where
-- that is empty the path has no dot.
pub get_extension_split :
    (path : Text)
    → (stem : Text) × (path ≡ stem ++ get_extension path)
      × IsExtension (get_extension path)
      × ((get_extension path ≢ []) ⊎ Lacks b'.' path)
unfolding get_extension
get_extension_split path = elim (Option-cases (rfind path b'.')) [
  | inl e ↦
      rw (e, get_extension) (path, sym (append-nil path), inl refl, inr (rfind-none path b'.' e))
  | inr (i, e) ↦
      let (r, dot, lacks) = rfind-some path b'.' i e in
      rw (e, get_extension)
        (take i path, sym (take-append-drop i path), inr (r, dot, lacks), inl (λ n. cc))
]

rfind-Lacks : (s : Text) (c : ℕ) → Lacks c s → rfind s c ≡ none
unfolding rfind
rfind-Lacks [] c h = refl
rfind-Lacks (d ∷ s) c h = rw (rfind-Lacks s c h.1, rfind, h.0)

rfind-append :
    (s r : Text) (c : ℕ)
    → Lacks c r
    → (i : ℕ) × (rfind (s ++ c ∷ r) c ≡ some i) × (drop i (s ++ c ∷ r) ≡ c ∷ r)
unfolding rfind
rfind-append [] r c h = (0, rw (rfind-Lacks r c h, ==_refl c), refl)
rfind-append (d ∷ s) r c h = let (i, e, k) = rfind-append s r c h in (suc i, rw e, k)

-- The extension is what stands behind the last dot, and the dot.
pub get_extension-append :
    (stem r : Text) → Lacks b'.' r → get_extension (stem ++ b'.' ∷ r) ≡ b'.' ∷ r
unfolding get_extension
get_extension-append stem r h =
    let (i, e, k) = rfind-append stem r b'.' h in rw (get_extension, e) k

get_extension-IsExtension : (ext : Text) → IsExtension ext → get_extension ext ≡ ext
unfolding get_extension rfind
get_extension-IsExtension ext (inl h) = rw h
get_extension-IsExtension ext (inr (r, h, lacks)) = rw h (get_extension-append [] r lacks)

-- The extension of an extension is itself: handle_request may take it twice.
pub get_extension_idem : (path : Text) → get_extension (get_extension path) ≡ get_extension path
get_extension_idem path =
    get_extension-IsExtension (get_extension path) (get_extension_split path).2

abbrev pub separator : Bool → ℕ
separator msvc = if msvc then 0x5c else b'/'

-- Under BOOST_MSVC each slash becomes a backslash.
unfoldable pub normalize : Bool → Text → Text
normalize msvc s = if msvc then map (λ c. if c == b'/' then 0x5c else c) s else s

-- `msvc` says whether BOOST_MSVC is defined. The result replaces what `result` held.
unfoldable pub path_cat : Bool → Text → Text → Text
unfolding normalize
path_cat msvc [] path = path
path_cat msvc (c ∷ cs) path =
    let base = c ∷ cs in
    let result = if back base == separator msvc then drop_back base else base in
    normalize msvc (result ++ path)

-- One separator at the end of the base does not matter, if there is something before it that does
-- not end in a separator itself.
pub path_cat-separator :
    (msvc : Bool) (c : ℕ) (cs path : Text)
    → (back (c ∷ cs) == separator msvc) ≡ false
    → path_cat msvc ((c ∷ cs) ++ separator msvc ∷ []) path ≡ path_cat msvc (c ∷ cs) path
unfolding path_cat
path_cat-separator msvc c cs path h = rw (
  back-append (c ∷ cs) (separator msvc),
  drop_back-append (c ∷ cs) (separator msvc),
  h,
  ==_refl (separator msvc),
)

normalize-Lacks : (s : Text) → Lacks b'/' (normalize true s)
unfolding normalize
normalize-Lacks [] = tt
normalize-Lacks (c ∷ s) = (ground arith, normalize-Lacks s)

-- Under BOOST_MSVC, with a base that is not empty the path has no slash, whatever slashes the base
-- and the path given have; with an empty base it is the path given, with its slashes.
pub path_cat-Lacks :
    (c : ℕ) (cs path : Text)
    → Lacks b'/' (path_cat true (c ∷ cs) path) × (path_cat true [] path ≡ path)
unfolding path_cat
path_cat-Lacks c cs path = (normalize-Lacks _, refl)
