-- ===== src/Server/Request/Files.antt =====
-- Which file handle_request sends.
use http_io.Common.{
  ℕ, ◌≡◌, refl, ap, subst, ◌⊎◌, inl, inr, Bool, false, List, [], ◌∷◌, ◌++◌, arith, ◌==◌, Bool-cases,
}
use http_io.System.{ErrorCodes}
use http_io.Text.{Text, codes, back}
use http_io.Text.Find.{Lacks}
use mathlib.Core.List.{append_assoc}
use http_io.Server.Path.{path_cat, normalize, get_extension, get_extension-append}
use http_io.Server.Path.Parts.{path_cat-Parts, name-ext}
use http_io.Server.Request.Confined.{is_bad_target-false}
use http_io.Server.Mime.{mime_type}
use http_io.Server.Request.{
  Libraries, Request, Effect, opens, start_file, append_field, content_type, ok, is_bad_target,
  file_path, open_and_size, opened, file_response, handle_request,
}
use http_io.Server.Request.Laws.{due_status}

-- The extension, without its dot, of the file that the target names: its own, or that of
-- "index.html".
abbrev pub Names : Text → Text → Type 0
Names target ext =
    ((stem : Text) × (target ≡ stem ++ b'.' ∷ ext) × Lacks b'.' ext × Lacks b'/' ext)
    ⊎ ((back target ≡ b'/') × (ext ≡ codes "html"))

abbrev pub opened_paths : List Effect → List Text
opened_paths [] = []
opened_paths (opens path ∷ es) = path ∷ opened_paths es
opened_paths (e ∷ es) = opened_paths es

abbrev pub sent_files : List Effect → List (Text × ℕ)
sent_files [] = []
sent_files (start_file path size ∷ es) = (path, size) ∷ sent_files es
sent_files (e ∷ es) = sent_files es

abbrev pub content_types : List Effect → List Text
content_types [] = []
content_types (append_field content_type text ∷ es) = text ∷ content_types es
content_types (e ∷ es) = content_types es

back-append_cons : (s r : Text) (c : ℕ) → back (s ++ c ∷ r) ≡ back (c ∷ r)
unfolding back
back-append_cons [] r c = refl
back-append_cons (d ∷ []) r c = refl
back-append_cons (d ∷ (e ∷ s)) r c = back-append_cons (e ∷ s) r c

back-Lacks : (c d : ℕ) (s : Text) → Lacks c (d ∷ s) → (back (d ∷ s) == c) ≡ false
unfolding back
back-Lacks c d [] h = h.0
back-Lacks c d (e ∷ s) h = back-Lacks c e s h.1

-- The root does not matter to the extension of the file.
file_path-ext :
    (msvc : Bool) (doc_root cs ext : Text)
    → Names (b'/' ∷ cs) ext
    → get_extension (file_path msvc doc_root (b'/' ∷ cs)) ≡ b'.' ∷ ext
unfolding file_path
file_path-ext msvc doc_root cs ext (inl (stem, e, no_dot, no_slash)) =
    let p = path_cat-Parts msvc doc_root cs in
    let (front, k) = name-ext p stem ext e no_slash in
    let last : (back (b'/' ∷ cs) == b'/') ≡ false =
      rw (e, back-append_cons stem ext b'.') (back-Lacks b'/' b'.' ext (refl, no_slash)) in
    let path = normalize msvc p.root in
    rw (last, p.is_path, k, ← append_assoc path front (b'.' ∷ ext))
      (get_extension-append (path ++ front) ext no_dot)
file_path-ext msvc doc_root cs ext (inr (e, h)) =
    let path = path_cat msvc doc_root (b'/' ∷ cs) in
    rw (e, h, ← append_assoc path (codes "index") (codes ".html"))
      (get_extension-append (path ++ codes "index") (codes "html")
        (refl, (refl, (refl, (refl, tt)))))

-- One file is opened and sent, with its size, and with the type that its extension has.
pub record SendsFile {E : ErrorCodes} (lib : Libraries E) (path ext : Text) (effects : List Effect)
    : Type 0 where
  pub size : ℕ
  pub is_open : E.failed (lib.open_file path) ≡ false
  pub has_size : (E.failed (lib.file_size path).0 ≡ false) × ((lib.file_size path).1 ≡ size)
  pub one_open : opened_paths effects ≡ path ∷ []
  pub one_file : sent_files effects ≡ (path, size) ∷ []
  pub one_type : content_types effects ≡ mime_type lib.ci_is_equal (b'.' ∷ ext) ∷ []

module _ {E : ErrorCodes} (lib : Libraries E) where
  due_status-ok :
      (msvc : Bool) (doc_root : Text) (req : Request)
      → due_status lib msvc doc_root req ≡ ok
      → (is_bad_target req.target_text ≡ false)
        × (E.failed (open_and_size lib (file_path msvc doc_root req.target_text)).0 ≡ false)
  due_status-ok msvc doc_root req h = ground arith

  opened-SendsFile :
      (req : Request) (path ext : Text)
      → E.failed (open_and_size lib path).0 ≡ false
      → get_extension path ≡ b'.' ∷ ext
      → SendsFile lib path ext (opens path ∷ opened lib req path (open_and_size lib path))
  unfolding opened open_and_size file_response
  opened-SendsFile req path ext good e = elim (Bool-cases (E.failed (lib.open_file path))) [
    | inl bad ↦ absurd (ground arith)
    | inr is_open ↦
        let size_good : E.failed (lib.file_size path).0 ≡ false = ground arith in
        rw (is_open, size_good)
          (record {
            size = (lib.file_size path).1;
            is_open = is_open;
            has_size = (size_good, refl);
            one_open = refl;
            one_file = refl;
            one_type = ap (λ t. mime_type lib.ci_is_equal t ∷ []) e;
          })
  ]

  -- A request that is due the status 200 and whose target ends in an extension without a slash, or in
  -- a slash, is sent the one file that is opened for it, which was opened and measured without
  -- failure, with the size that was measured, and with the content type of the target's extension,
  -- or that of ".html": neither the document root nor the platform matters to the type.
  pub handle_request-SendsFile :
      (msvc : Bool) (doc_root ext : Text) (req : Request)
      → due_status lib msvc doc_root req ≡ ok
      → Names req.target_text ext
      → SendsFile lib
          (file_path msvc doc_root req.target_text)
          ext
          (handle_request lib msvc doc_root req)
  unfolding handle_request
  handle_request-SendsFile msvc doc_root ext req h names =
      let (good, served) = due_status-ok msvc doc_root req h in
      let (cs, e, _) = is_bad_target-false req.target_text good in
      let path = file_path msvc doc_root req.target_text in
      rw good (
        opened-SendsFile req path ext served
          (rw e (file_path-ext msvc doc_root cs ext (subst (λ t. Names t ext) e names))))
