-- ===== src/Client/Visit.antt =====
-- What the client of example/client/flex_await/main.cpp asks of which server: the parts of a URL
-- that it uses, the choice of TLS, the statuses that it follows, and its request.
use http_io.Common.{ℕ, Bool, true, false, ◌||◌, not, List, [], ◌∷◌, ◌==◌, if◌then◌else◌}
use http_io.Text.{Text, codes, equal}
use http_io.Client.Libraries.{Urls}

-- The arguments `host`, `service` and `target` of `request`, and the variables of these names in
-- its loop.
pub record Visit : Type 0 where
  pub host : Text
  pub service : Text
  pub target : Text

is_empty : Text → Bool
is_empty [] = true
is_empty (c ∷ s) = false

module _ (urls : Urls) where
  unfoldable pub visit_of : urls.Url → Visit
  unfolding is_empty
  visit_of url = record {
    host = urls.host url;
    service = if urls.has_port url then urls.port url else urls.scheme url;
    target =
        if not (is_empty (urls.encoded_target url)) then urls.encoded_target url else codes "/";
  }

-- The test in `connect`.
unfoldable pub uses_tls : Visit → Bool
uses_tls v = equal v.service (codes "https")

-- moved_permanently, found, temporary_redirect and permanent_redirect of http_proto::status.
unfoldable pub is_redirect : ℕ → Bool
is_redirect status = status == 301 || status == 302 || status == 307 || status == 308

pub data Field : Type 0 where
  host user_agent accept_encoding : Field

-- The calls on a http_proto::request.
pub data RequestCall : Type 0 where
  set_method_get set_version_http_1_1 : RequestCall
  set_target : Text → RequestCall
  set_keep_alive : Bool → RequestCall
  set : Field → Text → RequestCall

-- `zlib` says whether BOOST_HTTP_PROTO_HAS_ZLIB is defined.
unfoldable pub get_request : Bool → Visit → List RequestCall
get_request zlib v =
    set_method_get
    ∷ set_target v.target
    ∷ set_version_http_1_1
    ∷ set_keep_alive false
    ∷ set Field.host v.host
    ∷ set Field.user_agent (codes "Boost.Http.Io")
    ∷ (if zlib then set Field.accept_encoding (codes "gzip, deflate") ∷ [] else [])
