-- ===== src/Server/Request/Laws.antt =====
-- What the handlers answer: one body of the announced size, its status and its connection.
use http_io.Common.{
  ℕ, ◌≡◌, refl, inl, inr, Bool, true, false, not, List, [], ◌∷◌, none, some, length, ◌==◌,
  if◌then◌else◌, Bool-cases,
}
use http_io.System.{ErrorCodes}
use http_io.Text.{Text}
use http_io.Server.Request.{
  Libraries, Request, Effect, opens, set_start_line, set_keep_alive, set_payload_size, start_string,
  start_file, bad_access, host_authority, error_page, unavailable_page, make_error_response,
  service_unavailable, is_bad_target, file_path, open_and_size, file_response, opened,
  handle_request, ok, bad_request, internal_server_error, service_unavailable_status,
}

-- The sizes that the response announces, and those of the bodies that the serializer is given.
abbrev pub payload_sizes : List Effect → List ℕ
payload_sizes [] = []
payload_sizes (set_payload_size n ∷ es) = n ∷ payload_sizes es
payload_sizes (e ∷ es) = payload_sizes es

abbrev pub body_sizes : List Effect → List ℕ
body_sizes [] = []
body_sizes (start_string s ∷ es) = length s ∷ body_sizes es
body_sizes (start_file path size ∷ es) = size ∷ body_sizes es
body_sizes (e ∷ es) = body_sizes es

abbrev pub statuses : List Effect → List ℕ
statuses [] = []
statuses (set_start_line code v ∷ es) = code ∷ statuses es
statuses (e ∷ es) = statuses es

abbrev pub keep_alives : List Effect → List Bool
keep_alives [] = []
keep_alives (set_keep_alive b ∷ es) = b ∷ keep_alives es
keep_alives (e ∷ es) = keep_alives es

abbrev pub is_undefined : List Effect → Bool
is_undefined [] = false
is_undefined (bad_access ∷ es) = true
is_undefined (e ∷ es) = is_undefined es

-- One start line, one body of the size that was announced, and one choice for the connection.
pub record Answers (code : ℕ) (keep : Bool) (effects : List Effect) : Type 0 where
  pub one_status : statuses effects ≡ code ∷ []
  pub one_keep_alive : keep_alives effects ≡ keep ∷ []
  pub size : ℕ
  pub one_body : body_sizes effects ≡ size ∷ []
  pub announced : payload_sizes effects ≡ size ∷ []
  pub defined : is_undefined effects ≡ false

module _ {E : ErrorCodes} (lib : Libraries E) where
  make_error_response-Answers :
      (code : ℕ) (req : Request) (a : lib.Authority)
      → host_authority lib req ≡ some a
      → Answers code req.keep_alive (make_error_response lib code req)
  unfolding make_error_response
  make_error_response-Answers code req a h = rw h (record {
    one_status = refl;
    one_keep_alive = refl;
    size = length (error_page lib code req a);
    one_body = refl;
    announced = refl;
    defined = refl;
  })

  file_response-Answers :
      (req : Request) (path : Text) (size : ℕ)
      → Answers ok req.keep_alive (file_response lib req path size)
  unfolding file_response
  file_response-Answers req path size = record {
    one_status = refl;
    one_keep_alive = refl;
    size = size;
    one_body = refl;
    announced = refl;
    defined = refl;
  }

  Answers-opens :
      (path : Text) {code : ℕ} {keep : Bool} {es : List Effect}
      → Answers code keep es
      → Answers code keep (opens path ∷ es)
  Answers-opens path a = record {
    one_status = a.one_status;
    one_keep_alive = a.one_keep_alive;
    size = a.size;
    one_body = a.one_body;
    announced = a.announced;
    defined = a.defined;
  }

  -- The file of a request can be opened and has a size.
  abbrev pub is_served : Text → Bool
  is_served path = not (E.failed (open_and_size lib path).0)

  -- The status that is due: 400 for a bad target, 200 for a file that can be served, and otherwise
  -- 500.
  abbrev pub due_status : Bool → Text → Request → ℕ
  due_status msvc doc_root req =
      if is_bad_target req.target_text
      then bad_request
      else if is_served (file_path msvc doc_root req.target_text)
      then ok
      else internal_server_error

  opened-Answers :
      (req : Request) (a : lib.Authority) (path : Text) (r : E.Code × ℕ)
      → host_authority lib req ≡ some a
      → Answers
          (if not (E.failed r.0) then ok else internal_server_error)
          req.keep_alive
          (opened lib req path r)
  unfolding opened
  opened-Answers req a path (ec, size) h = elim (Bool-cases (E.failed ec)) [
    | inl bad ↦ rw bad (make_error_response-Answers internal_server_error req a h)
    | inr good ↦ rw good (file_response-Answers req path size)
  ]

  -- A request whose Host field is an authority is answered once, by one start line with the status
  -- that is due, one body of the size that is announced, and with the connection kept or closed as
  -- the request asks.
  pub handle_request-Answers :
      (msvc : Bool) (doc_root : Text) (req : Request) (a : lib.Authority)
      → host_authority lib req ≡ some a
      → Answers (due_status msvc doc_root req) req.keep_alive (handle_request lib msvc doc_root req)
  unfolding handle_request
  handle_request-Answers msvc doc_root req a h = elim (Bool-cases (is_bad_target req.target_text)) [
    | inl bad ↦ rw bad (make_error_response-Answers bad_request req a h)
    | inr good ↦
        let path = file_path msvc doc_root req.target_text in
        rw good (Answers-opens path (opened-Answers req a path (open_and_size lib path) h))
  ]

  -- `service_unavailable` answers a request whose Host field is an authority once, by one start line
  -- with the status 503, one body of the size that is announced, and closes the connection.
  pub service_unavailable-Answers :
      (req : Request) (a : lib.Authority)
      → host_authority lib req ≡ some a
      → Answers service_unavailable_status false (service_unavailable lib req)
  unfolding service_unavailable
  service_unavailable-Answers req a h = rw h (record {
    one_status = refl;
    one_keep_alive = refl;
    size = length (unavailable_page lib a);
    one_body = refl;
    announced = refl;
    defined = refl;
  })

  is_undefined-opened :
      (req : Request) (path : Text) (r : E.Code × ℕ)
      → host_authority lib req ≡ none
      → is_undefined (opened lib req path r) ≡ E.failed r.0
  unfolding opened make_error_response file_response
  is_undefined-opened req path (ec, size) h = elim (Bool-cases (E.failed ec)) [
    | inl bad ↦ rw (bad, h)
    | inr good ↦ rw good
  ]

  -- Where the Host field is no authority, every answer but a file dereferences the error: 503 always,
  -- and otherwise exactly the requests that are due another status than 200.
  pub is_undefined-handle_request :
      (msvc : Bool) (doc_root : Text) (req : Request)
      → host_authority lib req ≡ none
      → (is_undefined (service_unavailable lib req) ≡ true)
        × (is_undefined (handle_request lib msvc doc_root req)
            ≡ not (due_status msvc doc_root req == ok))
  unfolding handle_request service_unavailable make_error_response
  is_undefined-handle_request msvc doc_root req h = (
    rw h,
    elim (Bool-cases (is_bad_target req.target_text)) [
      | inl bad ↦ rw (bad, h)
      | inr good ↦
          let path = file_path msvc doc_root req.target_text in
          let r = open_and_size lib path in
          rw (good, is_undefined-opened req path r h)
            (elim (Bool-cases (E.failed r.0)) [ inl bad ↦ rw bad | inr served ↦ rw served ])
    ],
  )
