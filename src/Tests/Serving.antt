-- ===== src/Tests/Serving.antt =====
-- The example server, with a parser of two-byte messages and one file to serve.
use http_io.Common.{
  ℕ, suc, ◌≡◌, refl, Bool, true, false, not, inl, ◌==◌, [], ◌∷◌, Option, none, some,
}
use http_io.Text.{Text, codes, rfind, contains, starts_with, back, drop_back}
use http_io.Server.Array.{
  allocate, construct, destroy, deallocate, destruct, fixed_array, construct_more, constructed,
  unstored,
}
use http_io.Server.Path.{get_extension, path_cat, path_cat-Lacks}
use http_io.Text.Find.{Lacks}
use http_io.Server.Request.{
  Request, host_authority, handle_request, service_unavailable, ok, is_bad_target, file_path,
  open_and_size,
}
use http_io.Server.Request.Laws.{
  Answers, due_status, is_undefined, handle_request-Answers, is_undefined-handle_request,
}
use http_io.Server.Request.Confined.{AllOpened, IsConfined, handle_request-IsConfined}
use http_io.Server.Request.Files.{SendsFile, handle_request-SendsFile}
use http_io.Example.{one_file, get_a}

extension_of_page : get_extension (codes "/a.b/page.html") ≡ codes ".html"
unfolding get_extension rfind
extension_of_page = refl

path_cat-Lacks_example :
    Lacks b'/' (path_cat true (codes "C:/srv") (codes "/a"))
    × (path_cat true [] (codes "/a") ≡ codes "/a")
path_cat-Lacks_example = path_cat-Lacks b'C' (codes ":/srv") (codes "/a")

-- Everything is equal, which is an equivalence.
abbrev always : Text → Text → Bool
always a b = true

handle_request-Answers_example :
    Answers
      (due_status one_file false (codes "/srv/") get_a)
      true
      (handle_request one_file false (codes "/srv/") get_a)
unfolding host_authority
handle_request-Answers_example =
    handle_request-Answers one_file false (codes "/srv/") get_a (codes "h") refl

abbrev bad_host : Request
bad_host = record get_a { host = some (codes "bad") }

is_undefined-handle_request_example :
    (is_undefined (service_unavailable one_file bad_host) ≡ true)
    × (is_undefined (handle_request one_file false (codes "/srv/") bad_host)
        ≡ not (due_status one_file false (codes "/srv/") bad_host == ok))
unfolding host_authority
is_undefined-handle_request_example =
    is_undefined-handle_request one_file false (codes "/srv/") bad_host refl

handle_request-IsConfined_example :
    AllOpened
      (IsConfined true (codes "C:\\srv"))
      (handle_request one_file true (codes "C:\\srv") get_a)
handle_request-IsConfined_example = handle_request-IsConfined one_file true (codes "C:\\srv") get_a

handle_request-SendsFile_example :
    SendsFile one_file
      (codes "/srv/a.txt")
      (codes "txt")
      (handle_request one_file false (codes "/srv/") get_a)
unfolding file_path open_and_size is_bad_target path_cat starts_with contains back drop_back
handle_request-SendsFile_example =
    handle_request-SendsFile one_file false (codes "/srv/") (codes "txt") get_a refl
      (inl (codes "/a", refl, (refl, (refl, (refl, tt))), (refl, (refl, (refl, tt)))))

-- A file without an extension has the end of its directory's name for one.
extension_of_directory : get_extension (codes "/srv.d/readme") ≡ codes ".d/readme"
unfolding get_extension rfind
extension_of_directory = refl

-- A constructor that throws at the third element.
abbrev fragile : ℕ → Option (ℕ × ℕ)
fragile ℕ.zero = none
fragile (suc n) = some (n, n)

thrown_at_third :
    destruct (fixed_array fragile 5 2)
    ≡ allocate 5 ∷ construct 0 ∷ construct 1 ∷ destroy 1 ∷ destroy 0 ∷ deallocate 2 ∷ []
unfolding destruct fixed_array construct_more constructed
thrown_at_third = refl

-- Where the allocation throws, the destructor has nothing to do.
unstored_destructed : destruct (unstored {S = ℕ} {T = ℕ} 5) ≡ []
unfolding destruct unstored
unstored_destructed = refl
