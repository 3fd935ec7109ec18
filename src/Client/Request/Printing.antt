-- ===== src/Client/Request/Printing.antt =====
-- What each handler of the client prints.
use http_io.Common.{◌∙◌, ◌≡◌, ap, Bool, true, List, [], ◌++◌, Option, none, some, arith}
use http_io.System.{ErrorCodes}
use http_io.Parser.{Parser}
use http_io.Serializer.{Serializer, Buffers, flatten}
use http_io.Read.Header.Keeps.{async_read_header-keeps}
use http_io.Read.Body.{async_read_some}
use http_io.Read.Body.Keeps.{begin_body-keeps}
use http_io.Client.Libraries.{ResponseParser, IsLawful, Network}
use http_io.Client.Visit.{Visit, RequestCall}
use http_io.Client.Body.{consume_all-consumes}
use http_io.Client.Request.Fetch.{print_body-prints}
use http_io.Client.Request.{
  Pending, resolving, connecting, handshaking, leaving, writing, reading_header, reading_body,
  closing, returned, threw, undefined, Client, on_resolved, start_handshake, on_connected,
  on_handshaken, on_write, print_body, start_shutdown, start_read, read_body, on_read_some,
  on_closed,
}

module _ {E : ErrorCodes} (P : Parser E) (S : Serializer E) (net : Network E) (R : ResponseParser P)
    (zlib : Bool) (start : List RequestCall → S.State) (L : IsLawful P R) where
  open L use {available, consumed}

  -- The parser has all of the body, and it was printed.
  abbrev pub HasPrinted : Client P S net → Type 0
  HasPrinted w =
      (P.is_complete w.parser ≡ true) × (available w.parser ≡ []) × (w.output ≡ consumed w.parser)

  -- Nothing is printed before the last response, and then what was consumed of its body.
  abbrev pub Prints : Pending P S net → Client P S net → Type 0
  Prints (resolving v) w = w.output ≡ []
  Prints (connecting v) w = w.output ≡ []
  Prints (handshaking v) w = w.output ≡ []
  Prints (leaving v) w = w.output ≡ []
  Prints (writing s) w = w.output ≡ []
  Prints (reading_header t) w = (w.output ≡ []) × (consumed t.parser ≡ [])
  Prints (reading_body t) w = consumed t.parser ≡ w.output
  Prints closing w = HasPrinted w
  Prints returned w = HasPrinted w
  Prints (threw x) w = Unit
  Prints undefined w = Unit

  abbrev pub IsPrinting : Client P S net → Type 0
  IsPrinting w = Prints w.pending w

  pub on_resolved-IsPrinting :
      (ec : E.Code) (results : net.Results) (v : Visit) (w : Client P S net)
      → w.output ≡ []
      → IsPrinting (on_resolved P S net ec results v w)
  unfolding on_resolved
  on_resolved-IsPrinting ec results v w h = ground arith

  start_handshake-IsPrinting :
      (o : Option E.Code) (v : Visit) (w : Client P S net)
      → w.output ≡ []
      → IsPrinting (start_handshake P S net o v w)
  unfolding start_handshake
  start_handshake-IsPrinting none v w h = h
  start_handshake-IsPrinting (some ec) v w h = tt

  pub on_connected-IsPrinting :
      (ec : E.Code) (v : Visit) (w : Client P S net)
      → w.output ≡ []
      → IsPrinting (on_connected P S net R zlib start ec v w)
  unfolding on_connected
  on_connected-IsPrinting ec v w h =
      ground (arith, start_handshake-IsPrinting (net.set_host_name v.host) v w h)

  pub on_handshaken-IsPrinting :
      (ec : E.Code) (v : Visit) (w : Client P S net)
      → w.output ≡ []
      → IsPrinting (on_handshaken P S net R zlib start ec v w)
  unfolding on_handshaken
  on_handshaken-IsPrinting ec v w h = ground arith

  pub on_write-IsPrinting :
      (ec : E.Code) (w : Client P S net)
      → w.output ≡ []
      → IsPrinting (on_write P S net R zlib start ec w)
  unfolding on_write
  on_write-IsPrinting ec w h =
      let p = P.start (P.reset w.parser) in
      ground (
        arith,
        async_read_header-keeps E P _ (L.consumed_kept []) p (L.consumed-start (P.reset w.parser)),
      )

  -- The loop prints and consumes the buffers it is given.
  print_body_lem :
      (bs : Buffers) (w : Client P S net)
      → flatten bs ≡ available w.parser
      → consumed w.parser ≡ w.output
      → let w' = print_body P S net R zlib start bs w in
        (available w'.parser ≡ []) × (consumed w'.parser ≡ w'.output)
  print_body_lem bs w h o =
      let (none_left, all) = consume_all-consumes P R L bs w.parser h in
      rw (print_body-prints P S net R zlib start bs w)
        (none_left, all ∙ ap (λ l. l ++ flatten bs) o)

  started-IsPrinting :
      (p : P.State) (w : Client P S net)
      → consumed p ≡ w.output
      → IsPrinting (start_read P S net R zlib start (async_read_some E P p) w)
  unfolding start_read async_read_some
  started-IsPrinting p w h =
      ground (arith, begin_body-keeps E P _ (L.consumed_kept w.output) true p h)

  pub read_body-IsPrinting :
      (w : Client P S net)
      → consumed w.parser ≡ w.output
      → IsPrinting (read_body P S net R zlib start w)
  unfolding read_body start_shutdown
  read_body-IsPrinting w h =
      let w' = print_body P S net R zlib start (R.pull_body w.parser) w in
      let printed = print_body_lem (R.pull_body w.parser) w (L.pull_body_lem w.parser) h in
      ground (arith, printed, started-IsPrinting w'.parser w' printed.1)

  pub on_read_some-IsPrinting :
      (ec : E.Code) (w : Client P S net)
      → consumed w.parser ≡ w.output
      → IsPrinting (on_read_some P S net R zlib start ec w)
  unfolding on_read_some
  on_read_some-IsPrinting ec w h = ground (arith, read_body-IsPrinting w h)

  pub on_closed-IsPrinting :
      (ec : E.Code) (w : Client P S net)
      → HasPrinted w
      → IsPrinting (on_closed P S net R zlib start ec w)
  unfolding on_closed
  on_closed-IsPrinting ec w h = ground arith
