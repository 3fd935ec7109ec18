-- ===== src/Tests/Sharing.antt =====
-- A server with two workers, of which the completions are mixed.
use http_io.Common.{ℕ, ◌≡◌, refl, false, List, [], ◌∷◌, some}
use http_io.Asio.Machine.{drive}
use http_io.Read
use http_io.Read.Header.{async_read_header}
use http_io.Read.Body.{begin_body}
use http_io.Write
use http_io.Server.Worker.{Worker, idle, accepted, read_event, write_event, run_worker}
use http_io.Server.Worker.Connection.{sent}
use http_io.Server.Worker.Replies.{HasServed}
use http_io.Server.Lifecycle.{
  ServerEvent, signal, timer, worker_event, Acceptor, make_server, run_server, loop,
}
use http_io.Server.Lifecycle.Inputs.{workers_at, take_input, inputs}
use http_io.Server.Lifecycle.Isolated.{run_server-IsIsolated}
use http_io.Server.Lifecycle.Serves.{run_server-HasServed}
use http_io.Server.Worker.{close}
use http_io.Example.{
  two_bytes, two_bytes-IsLawful, bytes_left, bytes_left-IsLawful, one_file, srv, fresh,
}
use http_io.Example.Pair.{
  has_length, has_length-IsPrefixFree, two_bytes-IsRecording, two_bytes-IsStarting,
}
use http_io.Tests.Asking.{page_messages, page_messages-IsCoding, round, round-Goes, server}

abbrev resting : Worker two_bytes bytes_left
resting = record server { pending = idle }

abbrev pair : Acceptor two_bytes bytes_left
pair = record { workers = resting ∷ resting ∷ []; calls = [] }

abbrev mixed : List (ServerEvent ℕ)
mixed =
    worker_event 0 (accepted 0)
    ∷ worker_event 1 (accepted 0)
    ∷ worker_event 1 (read_event (Read.Event.arrival 0 (65 ∷ [])))
    ∷ worker_event 0 (read_event (Read.Event.arrival 4 []))
    ∷ timer 0
    ∷ worker_event 1 (read_event (Read.Event.arrival 0 (66 ∷ [])))
    ∷ worker_event 1 (write_event (Write.Event.written 0 2))
    ∷ worker_event 0 (accepted 5)
    ∷ worker_event 1 (write_event (Write.Event.written 0 1))
    ∷ []

run_server-HasServed_example :
    (v : Worker two_bytes bytes_left) × (workers_at two_bytes bytes_left 1
        (loop two_bytes bytes_left one_file page_messages srv
          (run_server two_bytes bytes_left (make_server two_bytes bytes_left (pair ∷ [])))
          mixed).v_
      ≡ some v ∷ [])
    × (sent two_bytes bytes_left one_file page_messages srv false fresh [] (round ∷ [])
        ≡ 65 ∷ 1 ∷ 2 ∷ [])
    × HasServed two_bytes bytes_left one_file page_messages srv false
        (has_length 2)
        (has_length-IsPrefixFree 2)
        two_bytes-IsLawful
        two_bytes-IsRecording
        two_bytes-IsStarting
        bytes_left-IsLawful
        page_messages-IsCoding
        round
        []
        []
        []
        (close ∷ [])
        v
unfolding Read.run Read.deliver async_read_header begin_body
run_server-HasServed_example =
    run_server-HasServed two_bytes bytes_left one_file page_messages srv (has_length 2)
      (has_length-IsPrefixFree 2) two_bytes-IsLawful two_bytes-IsRecording two_bytes-IsStarting
      bytes_left-IsLawful page_messages-IsCoding pair 1 resting mixed 0 round [] [] [] refl tt refl
      refl (refl, tt) (round-Goes, tt, tt) refl

run_server-IsIsolated_example :
    workers_at two_bytes bytes_left 0
      (loop two_bytes bytes_left one_file page_messages srv
        (run_server two_bytes bytes_left (make_server two_bytes bytes_left (pair ∷ [])))
        (signal 0 ∷ mixed)).v_
    ≡ some (
        drive
          (take_input two_bytes bytes_left one_file page_messages srv)
          (run_worker two_bytes bytes_left resting)
          (inputs two_bytes bytes_left one_file page_messages srv 0
            (run_server two_bytes bytes_left (make_server two_bytes bytes_left []))
            (signal 0 ∷ mixed)))
      ∷ []
run_server-IsIsolated_example =
    run_server-IsIsolated two_bytes bytes_left one_file page_messages srv (pair ∷ []) 0
      (signal 0 ∷ mixed)
