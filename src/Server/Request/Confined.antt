-- ===== src/Server/Request/Confined.antt =====
-- Which files handle_request opens.
use mathlib.Core.List.{append_assoc}
use http_io.Common.{
  ℕ, Bool, ◌≡◌, refl, ◌∙◌, inl, inr, false, List, [], ◌∷◌, ◌++◌, Option, none, some, arith, ◌==◌,
  ==_iff, Bool-cases,
}
use http_io.System.{ErrorCodes}
use http_io.Text.{Text, codes, contains, back}
use http_io.Text.Find.{contains-dots_append}
use http_io.Server.Path.{normalize}
use http_io.Server.Path.Parts.{dots, IsRootOf, IsSeparator, path_cat-Parts, name-dots, name-end}
use http_io.Server.Request.{
  Libraries, Request, Effect, opens, host_authority, respond_error, make_error_response,
  is_bad_target, file_path, file_response, opened, handle_request,
}

-- The path is the document root, without the separator that it may end in and as `normalize` writes
-- it, and behind that an absolute name that cannot lead upwards.
abbrev pub IsConfined : Bool → Text → Text → Type 0
IsConfined msvc doc_root path =
    (root : Text) × (slash : ℕ) × (name : Text) × (path ≡ normalize msvc root ++ slash ∷ name)
    × IsRootOf msvc doc_root root
    × IsSeparator msvc slash
    × (contains (slash ∷ name) dots ≡ false)

abbrev pub AllOpened : (Text → Type 0) → List Effect → Type 0
AllOpened P [] = Unit
AllOpened P (opens path ∷ es) = P path × AllOpened P es
AllOpened P (e ∷ es) = AllOpened P es

contains-index : contains (codes "index.html") dots ≡ false
unfolding contains
contains-index = refl

file_path-IsConfined :
    (msvc : Bool) (doc_root cs : Text)
    → contains (b'/' ∷ cs) dots ≡ false
    → IsConfined msvc doc_root (file_path msvc doc_root (b'/' ∷ cs))
unfolding file_path
file_path-IsConfined msvc doc_root cs h =
    let p = path_cat-Parts msvc doc_root cs in
    elim (Bool-cases (back (b'/' ∷ cs) == b'/')) [
      | inl slash ↦ (
        p.root,
        p.slash,
        p.name ++ codes "index.html",
        rw (slash, p.is_path)
            (append_assoc (normalize msvc p.root) (p.slash ∷ p.name) (codes "index.html")),
        p.is_root,
        p.is_separator,
        contains-dots_append p.slash p.name (codes "index.html") (name-end p ∙ ground arith)
              (name-dots p ∙ h)
            ∙ contains-index,
      )
      | inr other ↦ (
        p.root,
        p.slash,
        p.name,
        rw (other, p.is_path),
        p.is_root,
        p.is_separator,
        name-dots p ∙ h,
      )
    ]

pub is_bad_target-false :
    (target : Text)
    → is_bad_target target ≡ false
    → (cs : Text) × (target ≡ b'/' ∷ cs) × (contains (b'/' ∷ cs) dots ≡ false)
unfolding is_bad_target
is_bad_target-false [] h = cc
is_bad_target-false (c ∷ cs) h = elim (Bool-cases (c == b'/')) [
  | inl e ↦
      let same : c ≡ b'/' = (==_iff c b'/').0 e in
      let safe : contains (c ∷ cs) dots ≡ false = ground arith in (cs, rw same, rw same at safe)
  | inr e ↦ absurd (ground arith)
]

module _ {E : ErrorCodes} (lib : Libraries E) where
  make_error_response-AllOpened :
      (P : Text → Type 0) (code : ℕ) (req : Request) (a : Option lib.Authority)
      → AllOpened P (respond_error lib code req a)
  unfolding respond_error
  make_error_response-AllOpened P code req none = tt
  make_error_response-AllOpened P code req (some a) = tt

  opened-AllOpened :
      (P : Text → Type 0) (req : Request) (path : Text) (r : E.Code × ℕ)
      → AllOpened P (opened lib req path r)
  unfolding opened make_error_response file_response
  opened-AllOpened P req path (ec, size) = elim (Bool-cases (E.failed ec)) [
    | inl bad ↦ rw bad (make_error_response-AllOpened P _ req (host_authority lib req))
    | inr good ↦ rw good tt
  ]

  -- On every platform and whatever the request, every file that `handle_request` opens lies under
  -- the document root: no ".." stands behind the root in its path.
  pub handle_request-IsConfined :
      (msvc : Bool) (doc_root : Text) (req : Request)
      → AllOpened (IsConfined msvc doc_root) (handle_request lib msvc doc_root req)
  unfolding handle_request make_error_response
  handle_request-IsConfined msvc doc_root req = elim (Bool-cases (is_bad_target req.target_text)) [
    | inl bad ↦ rw bad (make_error_response-AllOpened _ _ req (host_authority lib req))
    | inr good ↦
        let (cs, e, h) = is_bad_target-false req.target_text good in
        rw good (rw e (file_path-IsConfined msvc doc_root cs h), opened-AllOpened _ req _ _)
  ]
