-- ===== src/Tests/Browsing.antt =====
-- The client runs against a small network: over a redirect from a server with TLS to one without,
-- and straight to a page of two bytes.
use http_io.Common.{ℕ, ◌≡◌, ◌≢◌, ◌↔◌, refl, true, false, List, [], ◌∷◌, some}
use http_io.Text.{codes, equal}
use http_io.Asio.{Point, Action}
use http_io.Asio.Machine.{drive}
use http_io.System.{add_size}
use http_io.Read
use http_io.Read.{read_some}
use http_io.Read.Header.{read_header_op, async_read_header}
use http_io.Read.Body.{read_body_op}
use http_io.Write
use http_io.Write.Some.{write_some_op, async_write_some, deliver_some}
use http_io.Write.All
use http_io.Client.Stream.{shutdown_call}
use http_io.Client.Visit.{is_redirect, Visit, uses_tls, visit_of}
use http_io.Client.Request.{
  system_error, logic_error, ClientEvent, resolved, connected, handshaken, shut_down, read_event,
  write_event, resolving, leaving, reading_body, threw, Client, on_event, run, request,
}
use http_io.Client.Request.Safety.{request-ne-logic_error}
use http_io.Client.Request.Errors.{Fails, on_event-Throws}
use http_io.Client.Request.Ending.{HasLeft, on_event-HasLeft}
use http_io.Client.Request.Matching.{Refines}
use http_io.Client.Request.Refinement.{request-Refines}
use http_io.Client.Request.Printing.{HasPrinted}
use http_io.Client.Main.{main, exit_code, main-HasPrinted}
use http_io.Example.{numbers, bytes_left}
use http_io.Example.Page.{
  open_page, pages, pages-IsLawful, page_responses, page_responses-IsLawful, short_urls,
  small_network, blank, started, secure_visit,
}

-- The line has all that the run of a client computes with.
browse : Visit → List (ClientEvent ℕ ℕ) → Client pages bytes_left small_network
unfolding drive request on_event visit_of uses_tls equal is_redirect shutdown_call Read.deliver
    read_header_op async_read_header read_body_op All.deliver All.hand_on All.enter All.write_op
    All.async_write write_some_op async_write_some deliver_some add_size
browse v es =
    run pages bytes_left small_network page_responses false started short_urls
      (request pages bytes_left small_network page_responses false started short_urls v blank) es

abbrev straight : List (ClientEvent ℕ ℕ)
straight =
    resolved 0 8
    ∷ connected 0
    ∷ write_event (Write.Event.written 0 1)
    ∷ read_event (Read.Event.arrival 0 (65 ∷ 1 ∷ 2 ∷ []))
    ∷ shut_down 0
    ∷ []

straight_prints :
    ◌≡◌ {A = List ℕ} (browse (visit_of short_urls (codes "b")) straight).output (1 ∷ 2 ∷ [])
unfolding browse
straight_prints = refl

abbrev redirecting : List (ClientEvent ℕ ℕ)
redirecting =
    resolved 0 7
    ∷ connected 0
    ∷ handshaken 0
    ∷ write_event (Write.Event.written 0 1)
    ∷ read_event (Read.Event.arrival 0 (82 ∷ []))
    ∷ []

redirecting_leaves :
    (browse secure_visit redirecting).pending ≡ leaving (visit_of short_urls (codes "b"))
unfolding browse
redirecting_leaves = refl

straight_exits :
    exit_code pages bytes_left small_network page_responses false started short_urls
      (main pages bytes_left small_network page_responses false started short_urls
        (codes "flex_await" ∷ codes "b" ∷ [])
        blank)
      straight
    ≡ some 0
unfolding exit_code main browse
straight_exits = refl

main-HasPrinted_example :
    (w : Client pages bytes_left small_network) × (main pages bytes_left small_network
        page_responses false started short_urls
        (codes "flex_await" ∷ codes "b" ∷ [])
        blank
      ≡ some w)
    × HasPrinted pages bytes_left small_network page_responses false started page_responses-IsLawful
        (run pages bytes_left small_network page_responses false started short_urls w straight)
main-HasPrinted_example =
    main-HasPrinted pages bytes_left small_network page_responses false started short_urls
      page_responses-IsLawful (codes "flex_await" ∷ codes "b" ∷ []) blank straight straight_exits

request-ne-logic_error_example :
    (run pages bytes_left small_network page_responses false started short_urls
      (request pages bytes_left small_network page_responses false started short_urls secure_visit
        blank)
      redirecting).pending
    ≢ threw logic_error
request-ne-logic_error_example =
    request-ne-logic_error pages bytes_left small_network pages-IsLawful page_responses false
      started page_responses-IsLawful short_urls secure_visit blank redirecting

request-Refines_example :
    Refines pages bytes_left small_network page_responses false started short_urls secure_visit (
      run pages bytes_left small_network page_responses false started short_urls
        (request pages bytes_left small_network page_responses false started short_urls secure_visit
          blank)
        redirecting)
request-Refines_example =
    request-Refines pages bytes_left small_network page_responses false started short_urls
      secure_visit blank redirecting

-- A client that waits for a name, and one that waits for the second byte of a body.
abbrev resolver : Client pages bytes_left small_network
resolver = record {
  parser = blank;
  secure = false;
  output = [];
  calls = [];
  pending = resolving secure_visit;
}

abbrev half_read : Read.Turn numbers pages
half_read = record {
  op = record { point = Point.suspended; total_bytes = 0 };
  parser = record blank { phase = open_page 65 (1 ∷ []) [] };
  action = Action.initiate read_some;
}

abbrev reader : Client pages bytes_left small_network
reader = record resolver {
  parser = half_read.parser;
  output = 1 ∷ [];
  pending = reading_body half_read;
}

on_event-HasLeft_example :
    (d : ℕ) × (n : ℕ) × ((Read.deliver numbers pages
        (read_body_op numbers pages true)
        half_read.action
        half_read
        (Read.Event.arrival 1 [])).action
      ≡ Action.complete d n)
    × HasLeft pages bytes_left small_network page_responses false started short_urls
        page_responses-IsLawful d
        (on_event pages bytes_left small_network page_responses false started short_urls
          (read_event (Read.Event.arrival 1 []))
          reader)
on_event-HasLeft_example =
    on_event-HasLeft pages bytes_left small_network page_responses false started short_urls
      page_responses-IsLawful pages-IsLawful reader half_read 1 [] refl refl refl refl refl
      (λ _. refl)

-- The stream ends within the body, which is an error of the parser.
on_event-Throws_example :
    ((on_event pages bytes_left small_network page_responses false started short_urls
        (read_event (Read.Event.arrival 1 []))
        reader).pending
      ≡ threw (system_error 5))
    ↔ Fails pages bytes_left small_network reader.pending (read_event (Read.Event.arrival 1 [])) 5
on_event-Throws_example =
    on_event-Throws pages bytes_left small_network page_responses false started short_urls
      (read_event (Read.Event.arrival 1 [])) reader 5 (λ c h. cc)

truncated_body :
    Fails pages bytes_left small_network reader.pending (read_event (Read.Event.arrival 1 [])) 5
unfolding Read.deliver read_body_op add_size
truncated_body = ((0, refl, refl), refl)
