-- ===== src/Tests/Travelling.antt =====
-- The client follows a redirect from a server with TLS to one without, and reads a body there in two
-- pieces.
use http_io.Common.{ℕ, ◌≡◌, refl, true, false, List, [], ◌∷◌}
use http_io.Text.{codes, equal}
use http_io.System.{add_size}
use http_io.Read
use http_io.Read.Header.{read_header_op, async_read_header}
use http_io.Read.Body.{read_body_op, async_read_some, begin_body}
use http_io.Write
use http_io.Write.Some.{write_some_op, async_write_some, deliver_some}
use http_io.Write.All
use http_io.Client.Stream.{shutdown_call, tls_shutdown, close}
use http_io.Client.Visit.{is_redirect, uses_tls, visit_of, get_request}
use http_io.Client.Request.{
  Call, resolve, connect, set_host_name, handshake, send, shutdown, ClientEvent, resolved,
  connected, handshaken, shut_down, read_event, write_event, returned, run, request,
}
use http_io.Client.Request.Fetch.{whole, more}
use http_io.Client.Request.Journey.{Journey, last, redirected, request-HasReturned}
use http_io.Example.{bytes_left}
use http_io.Example.Page.{
  pages, page_responses, short_urls, small_network, blank, started, secure_visit,
}

abbrev travel : List (ClientEvent ℕ ℕ)
travel =
    resolved 0 7
    ∷ connected 0
    ∷ handshaken 0
    ∷ write_event (Write.Event.written 0 1)
    ∷ read_event (Read.Event.arrival 0 (82 ∷ []))
    ∷ shut_down 4
    ∷ resolved 0 8
    ∷ connected 0
    ∷ write_event (Write.Event.written 0 1)
    ∷ read_event (Read.Event.arrival 0 (65 ∷ 1 ∷ []))
    ∷ read_event (Read.Event.arrival 0 (2 ∷ []))
    ∷ shut_down 9
    ∷ []

abbrev travel_calls : List (Call ℕ)
travel_calls =
    connect true 7
    ∷ set_host_name (codes "a")
    ∷ handshake
    ∷ send (get_request false secure_visit)
    ∷ shutdown tls_shutdown
    ∷ resolve (codes "b") (codes "http")
    ∷ connect false 8
    ∷ send (get_request false (visit_of short_urls (codes "b")))
    ∷ shutdown close
    ∷ []

travel-Journey :
    Journey pages bytes_left small_network page_responses false started short_urls secure_visit
      blank travel
      (1 ∷ 2 ∷ [])
      travel_calls
unfolding visit_of uses_tls equal is_redirect shutdown_call Read.run Read.deliver read_header_op
    async_read_header read_body_op async_read_some begin_body All.run All.deliver All.hand_on
    All.enter All.write_op All.async_write write_some_op async_write_some deliver_some add_size
travel-Journey =
    redirected secure_visit blank 7 0 0 0 4 [] (Write.Event.written 0 1) []
      (Read.Event.arrival 0 (82 ∷ [])) (codes "b") (codes "b") _ _ _
      (refl, refl, λ h. (refl, refl), (refl, (0, 1, refl, refl)), (refl, (0, 1, refl, refl))) refl
      refl refl
      (last (visit_of short_urls (codes "b")) _ 8 0 0 0 9 [] (Write.Event.written 0 1) []
        (Read.Event.arrival 0 (2 ∷ []) ∷ []) (Read.Event.arrival 0 (65 ∷ 1 ∷ [])) _ _
        (refl, refl, λ h. (refl, refl), (refl, (0, 1, refl, refl)), (refl, (0, 2, refl, refl))) refl
        (more _ _ _ [] [] (Read.Event.arrival 0 (2 ∷ [])) _ refl refl (refl, (0, 1, refl, refl))
          (whole _ refl))
        refl)

request-HasReturned_example :
    let w =
      run pages bytes_left small_network page_responses false started short_urls
        (request pages bytes_left small_network page_responses false started short_urls secure_visit
          blank)
        travel in
    (w.pending ≡ returned)
    × (w.output ≡ 1 ∷ 2 ∷ [])
    × (w.calls ≡ resolve (codes "a") (codes "https") ∷ travel_calls)
request-HasReturned_example =
    request-HasReturned pages bytes_left small_network page_responses false started short_urls
      secure_visit blank travel (1 ∷ 2 ∷ []) travel_calls travel-Journey
