-- ===== src/Server/Mime.antt =====
-- mime_type of example/server/main.cpp.
use http_io.Common.{◌≡◌, refl, ap, Bool, true, List, [], ◌∷◌, if◌then◌else◌}
use http_io.Text.{Text, codes}
use http_io.Server.Path.{get_extension, get_extension_idem}

-- The tests of mime_type, in order, each with what it returns.
abbrev pub mime_types : List (Text × Text)
mime_types =
    (codes ".htm", codes "text/html")
    ∷ (codes ".html", codes "text/html")
    ∷ (codes ".php", codes "text/html")
    ∷ (codes ".css", codes "text/css")
    ∷ (codes ".txt", codes "text/plain")
    ∷ (codes ".js", codes "application/javascript")
    ∷ (codes ".json", codes "application/json")
    ∷ (codes ".xml", codes "application/xml")
    ∷ (codes ".swf", codes "application/x-shockwave-flash")
    ∷ (codes ".flv", codes "video/x-flv")
    ∷ (codes ".png", codes "image/png")
    ∷ (codes ".jpe", codes "image/jpeg")
    ∷ (codes ".jpeg", codes "image/jpeg")
    ∷ (codes ".jpg", codes "image/jpeg")
    ∷ (codes ".gif", codes "image/gif")
    ∷ (codes ".bmp", codes "image/bmp")
    ∷ (codes ".ico", codes "image/vnd.microsoft.icon")
    ∷ (codes ".tiff", codes "image/tiff")
    ∷ (codes ".tif", codes "image/tiff")
    ∷ (codes ".svg", codes "image/svg+xml")
    ∷ (codes ".svgz", codes "image/svg+xml")
    ∷ []

-- `ci_is_equal` is urls::grammar::ci_is_equal, which is not part of this repository.
module _ (ci_is_equal : Text → Text → Bool) where
  first_match : Text → List (Text × Text) → Text
  first_match ext [] = codes "application/text"
  first_match ext ((e, mime) ∷ rest) = if ci_is_equal ext e then mime else first_match ext rest

  unfoldable pub mime_type : Text → Text
  unfolding first_match
  mime_type path = first_match (get_extension path) mime_types

  first_match-cong :
      (a b : Text) (l : List (Text × Text))
      → ((c : Text) → ci_is_equal a c ≡ ci_is_equal b c)
      → first_match a l ≡ first_match b l
  unfolding first_match
  first_match-cong a b [] h = refl
  first_match-cong a b ((e, mime) ∷ rest) h = rw (h e, first_match-cong a b rest h)

  -- Where equality but for case is an equivalence, paths whose extensions are equal but for case
  -- have one type, and the extension alone has the type of the path.
  pub mime_type-get_extension :
      ((a b c : Text) → ci_is_equal a b ≡ true → ci_is_equal a c ≡ ci_is_equal b c)
      → (path other : Text) → ci_is_equal (get_extension path) (get_extension other) ≡ true
      → (mime_type path ≡ mime_type other) × (mime_type (get_extension path) ≡ mime_type path)
  unfolding mime_type
  mime_type-get_extension cong path other h = (
    first_match-cong (get_extension path) (get_extension other) mime_types
        (λ c. cong (get_extension path) (get_extension other) c h),
    ap (λ ext. first_match ext mime_types) (get_extension_idem path),
  )
