-- ===== src/Tests/Asking.antt =====
-- The client asks a worker for a page of two bytes; both sides read and write in pieces.
use http_io.Common.{ℕ, ◌≡◌, refl, true, false, arith, List, [], ◌∷◌}
use http_io.System.{add_size}
use http_io.Text.{codes, equal}
use http_io.Asio.Machine.{drive}
use http_io.Read
use http_io.Read.Header.{read_header_op, async_read_header}
use http_io.Read.Body.{read_body_op, begin_body, async_read_some}
use http_io.Write
use http_io.Write.Some.{write_some_op, async_write_some, deliver_some}
use http_io.Write.All
use http_io.Exchange.{whole-IsMessage}
use http_io.Server.Request.{host_authority}
use http_io.Server.Request.Laws.{handle_request-Answers}
use http_io.Server.Worker.{Worker, Messages, accepting, accepted, answer, on_event}
use http_io.Server.Worker.Connection.{Serving, Goes, events}
use http_io.Server.Worker.Decoding.{IsCoding}
use http_io.Server.Worker.Replies.{HasServed}
use http_io.Client.Visit.{Visit, RequestCall, is_redirect, uses_tls, visit_of}
use http_io.Client.Request.{
  ClientEvent, resolved, connected, shut_down, read_event, write_event, returned, run, request,
}
use http_io.Client.Request.Fetch.{whole, more}
use http_io.Conversation.{request-gets_reply}
use http_io.Example.{
  two_bytes, two_bytes-IsLawful, bytes_left, bytes_left-IsLawful, fresh, one_file, plain_messages,
  srv, get_a,
}
use http_io.Example.Page.{
  pages, page_responses, page_responses-IsLawful, short_urls, small_network, blank,
}
use http_io.Example.Pair.{
  has_length, has_length-IsPrefixFree, two_bytes-IsRecording, two_bytes-IsStarting,
  pages-IsRecording, page_responses-IsDecoding,
}

abbrev pub page_messages : Messages two_bytes bytes_left
page_messages = record plain_messages { start = λ es s. 65 ∷ 1 ∷ 2 ∷ []; keep_alive = λ es. true }

abbrev pub page_messages-IsCoding :
    IsCoding two_bytes bytes_left
      (has_length 2)
      two_bytes-IsRecording
      bytes_left-IsLawful
      page_messages
page_messages-IsCoding = record {
  decode = λ m. get_a;
  encode = λ es. 65 ∷ 1 ∷ 2 ∷ [];
  get_lem = λ p m rest done starts whole. refl;
  remaining-start = λ es s. refl;
}

abbrev asking : List RequestCall → List ℕ
asking calls = 65 ∷ 66 ∷ []

abbrev page_visit : Visit
page_visit = record { host = codes "b"; service = codes "http"; target = codes "/" }

abbrev pub round : Serving ℕ
round = record {
  message = 65 ∷ 66 ∷ [];
  header = [];
  header_end = Read.Event.arrival 0 (65 ∷ []);
  body = [];
  body_end = Read.Event.arrival 0 (66 ∷ []);
  writes = Write.Event.written 0 2 ∷ [];
  writes_end = Write.Event.written 0 1;
}

abbrev pub server : Worker two_bytes bytes_left
server = record {
  id_ = 1;
  parser = fresh;
  response = [];
  serializer = [];
  calls = [];
  pending = accepting;
}

abbrev asked : List (ClientEvent ℕ ℕ)
asked =
    resolved 0 8
    ∷ connected 0
    ∷ write_event (Write.Event.written 0 1)
    ∷ write_event (Write.Event.written 0 1)
    ∷ read_event (Read.Event.arrival 0 (65 ∷ 1 ∷ []))
    ∷ read_event (Read.Event.arrival 0 (2 ∷ []))
    ∷ shut_down 0
    ∷ []

pub round-Goes : Goes two_bytes bytes_left one_file page_messages srv false fresh [] round
unfolding Read.run Read.deliver answer read_header_op async_read_header read_body_op begin_body
    add_size host_authority All.run All.deliver All.hand_on All.enter All.write_op All.async_write
    write_some_op async_write_some deliver_some
round-Goes =
    let answered = handle_request-Answers one_file false srv.doc_root get_a (codes "h") refl in
    (
      (refl, (0, 1, refl, refl)),
      (refl, (0, 1, refl, refl)),
      answered.defined,
      (refl, (0, 3, refl, refl)),
      (omega arith),
    )

request-gets_reply_example :
    let w =
      run pages bytes_left small_network page_responses false asking short_urls
        (request pages bytes_left small_network page_responses false asking short_urls page_visit
          blank)
        asked in
    (w.pending ≡ returned)
    × (w.output ≡ 1 ∷ 2 ∷ [])
    × (◌≡◌ {A = List ℕ} [] [])
    × HasServed two_bytes bytes_left one_file page_messages srv false
        (has_length 2)
        (has_length-IsPrefixFree 2)
        two_bytes-IsLawful
        two_bytes-IsRecording
        two_bytes-IsStarting
        bytes_left-IsLawful
        page_messages-IsCoding
        round
        []
        []
        []
        []
        (drive
          (on_event two_bytes bytes_left one_file page_messages srv false)
          server
          (accepted 0 ∷ events (round ∷ [])))
unfolding visit_of uses_tls equal is_redirect Read.run Read.deliver read_header_op answer
    host_authority async_read_header read_body_op async_read_some begin_body All.run All.deliver
    All.hand_on All.enter All.write_op All.async_write write_some_op async_write_some deliver_some
    add_size
request-gets_reply_example =
    request-gets_reply two_bytes bytes_left one_file page_messages srv false (has_length 2)
      (has_length-IsPrefixFree 2) two_bytes-IsLawful two_bytes-IsRecording two_bytes-IsStarting
      bytes_left-IsLawful page_messages-IsCoding pages bytes_left small_network page_responses false
      asking short_urls (has_length 3) pages-IsRecording page_responses-IsLawful
      page_responses-IsDecoding bytes_left-IsLawful page_visit blank 8 0 0 0 0 0
      (Write.Event.written 0 1 ∷ []) (Write.Event.written 0 1) []
      (Read.Event.arrival 0 (2 ∷ []) ∷ []) (Read.Event.arrival 0 (65 ∷ 1 ∷ [])) _ (1 ∷ 2 ∷ [])
      server round [] []
      (refl, refl, λ h. (refl, refl), (refl, (0, 2, refl, refl)), (refl, (0, 2, refl, refl)))
      (omega arith) refl
      (more _ _ _ [] [] (Read.Event.arrival 0 (2 ∷ [])) _ refl refl (refl, (0, 1, refl, refl))
        (whole _ refl))
      refl refl refl refl refl round-Goes refl refl
      (whole-IsMessage (has_length 3) (has_length-IsPrefixFree 3) (65 ∷ 1 ∷ 2 ∷ []) refl) refl
