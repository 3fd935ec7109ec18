-- ===== src/Server/Request.antt =====
-- make_error_response, handle_request and service_unavailable of example/server/main.cpp.
pub mod Laws
pub mod Confined
pub mod Files
use http_io.Common.{
  ℕ, Bool, true, false, not, ◌||◌, List, [], ◌∷◌, ◌++◌, Option, none, some, length, ◌==◌,
  if◌then◌else◌,
}
use http_io.System.{ErrorCodes}
use http_io.Text.{Text, codes, contains, back, to_string}
use http_io.Server.Path.{get_extension, path_cat}
use http_io.Server.Mime.{mime_type}

-- What the handlers use of Boost.URL, Boost.Http.Proto and the file system.
pub record Libraries (E : ErrorCodes) : Type 1 where
  pub Authority : Type 0
  -- urls::parse_authority; `none` is an error.
  pub parse_authority : Text → Option Authority
  pub host_address : Authority → Text
  pub port : Authority → Text
  pub ci_is_equal : Text → Text → Bool
  -- http_proto::obsolete_reason
  pub obsolete_reason : ℕ → Text
  -- http_proto::file: the code of `open`, and the code and the result of `size`.
  pub open_file : Text → E.Code
  pub file_size : Text → E.Code × ℕ

-- http_proto::status, by the numbers of HTTP.
abbrev pub ok : ℕ
ok = 200

abbrev pub bad_request : ℕ
bad_request = 400

abbrev pub not_found : ℕ
not_found = 404

abbrev pub internal_server_error : ℕ
internal_server_error = 500

abbrev pub service_unavailable_status : ℕ
service_unavailable_status = 503

-- What is read of the http_proto::request_view.
pub record Request : Type 0 where
  pub target_text : Text
  pub host : Option Text
  pub keep_alive : Bool

-- Whose version a start line takes.
pub data VersionOf : Type 0 where
  request_version response_version : VersionOf

-- The fields that a response is given.
pub data Field : Type 0 where
  server content_type date : Field

-- What a handler does to the file system, the response and the serializer.
pub data Effect : Type 0 where
  opens : Text → Effect
  set_start_line : ℕ → VersionOf → Effect
  set_keep_alive : Bool → Effect
  set_payload_size : ℕ → Effect
  set_field append_field : Field → Text → Effect
  start_string : Text → Effect
  start_file : Text → ℕ → Effect
  -- `rv->` where `rv` holds an error: the behaviour is undefined.
  bad_access : Effect

-- The request path is absolute and does not contain "..".
unfoldable pub is_bad_target : Text → Bool
is_bad_target [] = true
is_bad_target (c ∷ cs) = not (c == b'/') || contains (c ∷ cs) (codes "..")

-- The path of the file for a target that is not empty.
unfoldable pub file_path : Bool → Text → Text → Text
file_path msvc doc_root target =
    let path = path_cat msvc doc_root target in
    if back target == b'/' then path ++ codes "index.html" else path

module _ {E : ErrorCodes} (lib : Libraries E) where
  open lib use {Authority, parse_authority, host_address, port, obsolete_reason}

  -- The lines that the two error pages have in common: the head, and the end.
  page_head : ℕ → Text
  page_head code =
      codes "<!DOCTYPE HTML PUBLIC \"-//IETF//DTD HTML 2.0//EN\">\n"
      ++ (codes "<html><head>\n"
          ++ (codes "<title>"
              ++ (to_string code
                  ++ (codes " "
                      ++ (obsolete_reason code
                          ++ (codes "</title>\n"
                              ++ (codes "</head><body>\n"
                                  ++ (codes "<h1>"
                                      ++ (obsolete_reason code ++ codes "</h1>\n")))))))))

  page_end : Authority → Text
  page_end authority =
      codes "<hr>\n"
      ++ (codes "<address>Boost.Http.IO/1.0b (Win10) Server at "
          ++ (host_address authority
              ++ (codes " Port "
                  ++ (port authority ++ (codes "</address>\n" ++ codes "</body></html>\n")))))

  not_found_text : Text → Text
  not_found_text target =
      codes "<p>The requested URL " ++ (target ++ codes " was not found on this server.</p>\n")

  unfoldable pub host_authority : Request → Option Authority
  host_authority req = parse_authority (elim req.host [ none ↦ codes "" | some host ↦ host ])

  pub error_page : ℕ → Request → Authority → Text
  error_page code req authority =
      page_head code
      ++ ((if code == not_found then not_found_text req.target_text else []) ++ page_end authority)

  -- Where the Host field is no authority, `rv->host_address()` comes first.
  pub respond_error : ℕ → Request → Option Authority → List Effect
  respond_error code req none = bad_access ∷ []
  respond_error code req (some authority) =
      let s = error_page code req authority in
      set_start_line code response_version
      ∷ set_keep_alive req.keep_alive
      ∷ set_payload_size (length s)
      ∷ append_field content_type (codes "text/html; charset=iso-8859-1")
      ∷ append_field date (codes "Mon, 12 Dec 2022 03:26:32 GMT")
      ∷ append_field server (codes "Boost.Http.IO/1.0b (Win10)")
      ∷ start_string s
      ∷ []

  unfoldable pub make_error_response : ℕ → Request → List Effect
  unfolding respond_error
  make_error_response code req = respond_error code req (host_authority req)

  pub unavailable_page : Authority → Text
  unavailable_page authority = page_head service_unavailable_status ++ page_end authority

  pub respond_unavailable : Option Authority → List Effect
  respond_unavailable none = bad_access ∷ []
  respond_unavailable (some authority) =
      let s = unavailable_page authority in
      set_start_line service_unavailable_status response_version
      ∷ set_keep_alive false
      ∷ set_payload_size (length s)
      ∷ append_field content_type (codes "text/html; charset=iso-8859-1")
      ∷ append_field server (codes "Boost.Http.Io")
      ∷ start_string s
      ∷ []

  unfoldable pub service_unavailable : Request → List Effect
  unfolding respond_unavailable
  service_unavailable req = respond_unavailable (host_authority req)

  -- `f.open(…, ec)`, and `f.size(ec)` if that did not fail.
  unfoldable pub open_and_size : Text → E.Code × ℕ
  open_and_size path =
      let ec = lib.open_file path in if E.failed ec then (ec, 0) else lib.file_size path

  pub file_response : Request → Text → ℕ → List Effect
  file_response req path size =
      set_start_line ok request_version
      ∷ set_field server (codes "Boost")
      ∷ set_keep_alive req.keep_alive
      ∷ set_payload_size size
      ∷ append_field content_type (mime_type lib.ci_is_equal (get_extension path))
      ∷ start_file path size
      ∷ []

  pub opened : Request → Text → E.Code × ℕ → List Effect
  opened req path (ec, size) =
      if E.failed ec
      then make_error_response internal_server_error req
      else file_response req path size

  unfoldable pub handle_request : Bool → Text → Request → List Effect
  handle_request msvc doc_root req =
      let path = file_path msvc doc_root req.target_text in
      if is_bad_target req.target_text
      then make_error_response bad_request req
      else opens path ∷ opened req path (open_and_size path)
