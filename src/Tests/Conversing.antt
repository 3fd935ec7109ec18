-- ===== src/Tests/Conversing.antt =====
-- A worker serves two requests that come in one piece and a byte, and the client asks a worker for
-- a page.
use http_io.Common.{ℕ, ◌≡◌, refl, true, false, arith, [], ◌∷◌}
use http_io.System.{add_size}
use http_io.Text.{codes}
use http_io.Asio.Machine.{drive}
use http_io.Read
use http_io.Read.Header.{read_header_op, async_read_header}
use http_io.Read.Body.{read_body_op, begin_body}
use http_io.Write
use http_io.Write.Some.{write_some_op, async_write_some, deliver_some}
use http_io.Write.All
use http_io.Server.Request.{host_authority}
use http_io.Server.Request.Laws.{handle_request-Answers}
use http_io.Server.Worker.{Worker, Messages, accepting, accepted, answer, on_event}
use http_io.Server.Worker.Connection.{Serving, AllGo, events, sent}
use http_io.Server.Worker.Decoding.{IsCoding}
use http_io.Server.Worker.Replies.{HasServed, serve-HasServed}
use http_io.Example.{
  two_bytes, two_bytes-IsLawful, bytes_left, bytes_left-IsLawful, fresh, one_file, plain_messages,
  srv, get_a,
}
use http_io.Example.Pair.{
  has_length, has_length-IsPrefixFree, two_bytes-IsRecording, two_bytes-IsStarting,
}

abbrev kept_messages : Messages two_bytes bytes_left
kept_messages = record plain_messages { keep_alive = λ es. true }

abbrev kept_messages-IsCoding :
    IsCoding two_bytes bytes_left
      (has_length 2)
      two_bytes-IsRecording
      bytes_left-IsLawful
      kept_messages
kept_messages-IsCoding = record {
  decode = λ m. get_a;
  encode = λ es. 7 ∷ [];
  get_lem = λ p m rest done starts whole. refl;
  remaining-start = λ es s. refl;
}

-- The first read brings a message and the first byte of the next.
abbrev first : Serving ℕ
first = record {
  message = 65 ∷ 66 ∷ [];
  header = [];
  header_end = Read.Event.arrival 0 (65 ∷ 66 ∷ 67 ∷ []);
  body = [];
  body_end = Read.Event.run_posted;
  writes = [];
  writes_end = Write.Event.written 0 1;
}

abbrev second : Serving ℕ
second = record {
  message = 67 ∷ 68 ∷ [];
  header = [];
  header_end = Read.Event.run_posted;
  body = [];
  body_end = Read.Event.arrival 0 (68 ∷ []);
  writes = [];
  writes_end = Write.Event.written 0 1;
}

abbrev server : Worker two_bytes bytes_left
server = record {
  id_ = 1;
  parser = fresh;
  response = [];
  serializer = [];
  calls = [];
  pending = accepting;
}

both_go : AllGo two_bytes bytes_left one_file kept_messages srv false fresh [] (first ∷ second ∷ [])
unfolding Read.run Read.deliver answer read_header_op async_read_header read_body_op begin_body
    add_size host_authority All.run All.deliver All.hand_on All.enter All.write_op All.async_write
    write_some_op async_write_some deliver_some
both_go =
    let answered = (handle_request-Answers one_file false srv.doc_root get_a (codes "h") refl) in
    (
      (
        (refl, (0, 3, refl, refl)),
        (refl, (0, 0, refl, refl)),
        answered.defined,
        (refl, (0, 1, refl, refl)),
        (omega arith),
      ),
      refl,
      (
        (
          (refl, (0, 0, refl, refl)),
          (refl, (0, 1, refl, refl)),
          answered.defined,
          (refl, (0, 1, refl, refl)),
          (omega arith),
        ),
        tt,
        tt,
      ),
    )

serve-HasServed_example :
    (sent two_bytes bytes_left one_file kept_messages srv false fresh [] (first ∷ second ∷ [])
      ≡ 7 ∷ 7 ∷ [])
    × HasServed two_bytes bytes_left one_file kept_messages srv false
        (has_length 2)
        (has_length-IsPrefixFree 2)
        two_bytes-IsLawful
        two_bytes-IsRecording
        two_bytes-IsStarting
        bytes_left-IsLawful
        kept_messages-IsCoding
        first
        (second ∷ [])
        []
        []
        []
        (drive
          (on_event two_bytes bytes_left one_file kept_messages srv false)
          server
          (accepted 0 ∷ events (first ∷ second ∷ [])))
unfolding Read.run Read.deliver answer read_header_op async_read_header read_body_op begin_body
    add_size host_authority All.run All.deliver All.hand_on All.enter All.write_op All.async_write
    write_some_op async_write_some deliver_some
serve-HasServed_example =
    serve-HasServed two_bytes bytes_left one_file kept_messages srv false (has_length 2)
      (has_length-IsPrefixFree 2) two_bytes-IsLawful two_bytes-IsRecording two_bytes-IsStarting
      bytes_left-IsLawful kept_messages-IsCoding 0 first (second ∷ []) server [] [] refl refl
      (refl, (refl, tt)) both_go refl
