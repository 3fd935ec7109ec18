-- ===== src/Tests/Running.antt =====
-- Workers and the whole server, at a few events.
use http_io.Common.{
  ◌+◌, ℕ, ◌%◌, ◌^◌, if◌then◌else◌, ◌≡◌, refl, true, false, ◌==◌, List, [], ◌∷◌, some, arith,
}
use http_io.Asio.{Point, Action}
use http_io.Text.{Text, codes}
use http_io.Read
use http_io.Read.{read_some}
use http_io.Server.Array.{construct_more, constructed}
use http_io.Server.Request.{host_authority}
use http_io.Server.Request.Laws.{handle_request-Answers}
use http_io.Server.Worker.{
  run_worker, stop_worker, stop_worker, Worker, accepted, accepting, write_event, read_event,
  answer, reading_header, reading_body, on_event,
}
use http_io.Server.Worker.Laws.{IsSafe}
use http_io.Asio.Machine.{drive}
use http_io.Server.Worker.Round.{IsAnswered, serve-IsAnswered}
use http_io.Write
use http_io.Write.All
use http_io.Write.All.{async_write}
use http_io.Write.Some.{write_some_op, async_write_some, deliver_some}
use http_io.System.{add_size}
use http_io.Read.Header.{read_header_op, async_read_header}
use http_io.Read.Body.{read_body_op, begin_body}
use http_io.Server.Worker.Responses.{Responds, on_event-Responds}
use http_io.Server.Lifecycle.{
  ServerEvent, signal, timer, worker_event, Acceptor, Server, make_server, run_server, run_acceptor,
  loop_turn, on_signal, on_timer, stop, loop,
}
use http_io.Server.Lifecycle.Laws.{run_server_stops}
use http_io.Server.Lifecycle.Stages.{halted, IsAt, run_server-IsAt}
use http_io.Server.Lifecycle.Cancels.{EachCancelled, times, run_server-EachCancelled}
use http_io.Server.Lifecycle.Rest.{outstanding, run_server-rests}
use http_io.Server.Lifecycle.Workers.{EachWorker, run_server-EachSafe}
use http_io.Server.Main
use http_io.Server.Setup.{make_acceptor, ids, ids_from}
use http_io.Example.{
  numbers, bytes_left-IsLawful, fresh, two_bytes, two_bytes-IsLawful, bytes_left, one_file, srv,
  get_a, plain_messages,
}

abbrev three : Acceptor two_bytes bytes_left
three = make_acceptor two_bytes bytes_left fresh [] 3

-- A machine on which "3" is a number, every other text is 80, and each address can be listened on.
abbrev machine : Main.System
machine = record {
  Address = Text;
  make_address = λ t. some t;
  atoi = λ t. elim t [ [] ↦ 0 | c ∷ cs ↦ if c == b'3' then 3 else 80 ];
  can_listen = λ a port. true;
  can_allocate = λ n. true;
}

abbrev three_workers : Main.Program two_bytes bytes_left fresh [] machine
three_workers = record {
  server = run_server two_bytes bytes_left (make_server two_bytes bytes_left (three ∷ []));
  address = codes "0.0.0.0";
  port = 80;
  doc_root = codes ".";
}

main_starts :
    Main.main two_bytes bytes_left fresh [] machine
      (codes "server" ∷ codes "0.0.0.0" ∷ codes "80" ∷ codes "." ∷ codes "3" ∷ [])
    ≡ some three_workers
unfolding Main.main
main_starts = refl

main-serves_example :
    (a : Acceptor two_bytes bytes_left) × (three_workers.server.v_ ≡ a ∷ [])
    × (ids two_bytes bytes_left fresh [] a.workers ≡ ids_from two_bytes bytes_left fresh [] 3 0)
    × Main.AllAccepting two_bytes bytes_left fresh [] machine a.workers
    × (80 ≡ 80 % 2 ^ 16)
main-serves_example =
    Main.main-serves two_bytes bytes_left fresh [] machine (codes "server") (codes "0.0.0.0")
      (codes "80") (codes ".") (codes "3") three_workers (omega arith) main_starts

-- A worker that waits for its first header.
abbrev reader : Worker two_bytes bytes_left
reader = record {
  id_ = 1;
  parser = fresh;
  response = [];
  serializer = [];
  calls = [];
  pending = reading_header (record {
    op = record { point = Point.suspended; total_bytes = 0 };
    parser = fresh;
    action = Action.initiate read_some;
  });
}

-- The same worker, with a header, waits for the last byte of its body.
abbrev body_reader : Worker two_bytes bytes_left
body_reader =
    let p = record fresh { input = 65 ∷ [] } in
    record reader {
      parser = p;
      pending = reading_body (record {
        op = record { point = Point.suspended; total_bytes = 0 };
        parser = p;
        action = Action.initiate read_some;
      });
    }

on_event-Responds_example : Responds two_bytes bytes_left one_file plain_messages srv true [] (
    on_event two_bytes bytes_left one_file plain_messages srv true
      (read_event (Read.Event.arrival 0 (66 ∷ [])))
      body_reader)
on_event-Responds_example =
    on_event-Responds two_bytes bytes_left one_file plain_messages srv true
      (read_event (Read.Event.arrival 0 (66 ∷ []))) body_reader

abbrev server_after : List (ServerEvent ℕ) → Server two_bytes bytes_left
server_after es =
    loop two_bytes bytes_left one_file plain_messages srv
      (run_server two_bytes bytes_left (make_server two_bytes bytes_left (three ∷ []))) es

run_server-IsAt_example :
    IsAt two_bytes bytes_left halted
      (server_after (worker_event 0 (accepted 0) ∷ signal 0 ∷ timer 4 ∷ timer 0 ∷ signal 2 ∷ []))
run_server-IsAt_example =
    run_server-IsAt two_bytes bytes_left one_file plain_messages srv (three ∷ [])
      (worker_event 0 (accepted 0) ∷ signal 0 ∷ timer 4 ∷ timer 0 ∷ signal 2 ∷ [])

run_server_stops_example :
    (server_after (signal 0 ∷ worker_event 1 (accepted 2) ∷ signal 0 ∷ timer 2 ∷ [])).is_stopped
    ≡ true
run_server_stops_example =
    run_server_stops two_bytes bytes_left one_file plain_messages srv (three ∷ []) 0 0 []
      (worker_event 1 (accepted 2) ∷ []) (timer 2 ∷ [])

-- What a server of three workers that wait for connections has cancelled when it is stopped.
abbrev cancelled : List (ServerEvent ℕ)
cancelled =
    worker_event 1 (accepted 2)
    ∷ timer 2
    ∷ worker_event 0 (accepted 2)
    ∷ worker_event 2 (accepted 2)
    ∷ []

run_server-rests_example :
    outstanding two_bytes bytes_left (server_after (signal 0 ∷ signal 0 ∷ cancelled)) + 4 ≡ 4
unfolding loop loop_turn run_server run_acceptor run_worker stop_worker make_server on_signal
    on_timer stop make_acceptor construct_more constructed
run_server-rests_example =
    run_server-rests two_bytes bytes_left one_file plain_messages srv (three ∷ [])
      (signal 0 ∷ signal 0 ∷ []) cancelled refl
      ((_, refl, refl), ((refl, omega arith), ((_, refl, refl), ((_, refl, refl), tt))))

run_server-EachCancelled_example :
    let s = server_after (signal 0 ∷ timer 0 ∷ signal 2 ∷ []) in
    EachCancelled two_bytes bytes_left (times two_bytes bytes_left s.is_stopped) s.v_
unfolding make_acceptor construct_more constructed
run_server-EachCancelled_example =
    run_server-EachCancelled two_bytes bytes_left one_file plain_messages srv (three ∷ [])
      (signal 0 ∷ timer 0 ∷ signal 2 ∷ []) (omega arith)

run_server-EachSafe_example :
    EachWorker two_bytes bytes_left
      (IsSafe two_bytes bytes_left two_bytes-IsLawful)
      (server_after (
        worker_event 0 (accepted 0)
        ∷ worker_event 0 (read_event (Read.Event.arrival 0 (65 ∷ [])))
        ∷ signal 0
        ∷ [])).v_
run_server-EachSafe_example =
    run_server-EachSafe two_bytes bytes_left one_file plain_messages srv two_bytes-IsLawful
      (three ∷ [])
      (worker_event 0 (accepted 0)
        ∷ worker_event 0 (read_event (Read.Event.arrival 0 (65 ∷ [])))
        ∷ signal 0
        ∷ [])

abbrev acceptor_worker : Worker two_bytes bytes_left
acceptor_worker = record reader { pending = accepting }

serve-IsAnswered_example :
    IsAnswered two_bytes bytes_left one_file plain_messages srv false bytes_left-IsLawful.remaining
      (record fresh { input = 65 ∷ 66 ∷ [] })
      (Write.All.run numbers bytes_left
        (async_write numbers bytes_left (7 ∷ []))
        (Write.Event.written 0 1 ∷ []))
      (7 ∷ [])
      []
      (drive (on_event two_bytes bytes_left one_file plain_messages srv false) acceptor_worker (
        accepted 0
        ∷ read_event (Read.Event.arrival 0 (65 ∷ []))
        ∷ read_event (Read.Event.arrival 0 (66 ∷ []))
        ∷ write_event (Write.Event.written 0 1)
        ∷ []))
unfolding Read.run Read.deliver answer read_header_op async_read_header read_body_op begin_body
    add_size host_authority Write.All.run Write.All.deliver Write.All.hand_on Write.All.enter
    Write.All.write_op async_write write_some_op async_write_some deliver_some
serve-IsAnswered_example =
    serve-IsAnswered two_bytes bytes_left one_file plain_messages srv false two_bytes-IsLawful
      bytes_left-IsLawful acceptor_worker 0 [] [] (Read.Event.arrival 0 (65 ∷ []))
      (Read.Event.arrival 0 (66 ∷ [])) [] (Write.Event.written 0 1) refl refl
      (refl, (0, 1, refl, refl)) (refl, (0, 1, refl, refl))
      (handle_request-Answers one_file false srv.doc_root get_a (codes "h") refl).defined
      (refl, (0, 1, refl, refl)) (omega arith)
