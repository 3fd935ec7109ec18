-- ===== src/Client/Main.antt =====
-- `main` of example/client/flex_await/main.cpp. The contexts that it sets up are parameters, as is
-- the event loop's order of completions.
use http_io.Common.{ℕ, ◌≡◌, ◌≢◌, refl, Bool, List, [], ◌∷◌, Option, none, some, arith}
use http_io.System.{ErrorCodes}
use http_io.Parser.{Parser}
use http_io.Serializer.{Serializer}
use http_io.Text.{Text}
use http_io.Client.Libraries.{Urls, ResponseParser, IsLawful, Network}
use http_io.Client.Visit.{visit_of, RequestCall}
use http_io.Client.Request.{ClientEvent, Pending, returned, threw, Client, run, request}
use http_io.Client.Request.Printing.{HasPrinted}
use http_io.Client.Request.Output.{request-HasPrinted}

module _ {E : ErrorCodes} (P : Parser E) (S : Serializer E) (net : Network E) (R : ResponseParser P)
    (zlib : Bool) (start : List RequestCall → S.State) (urls : Urls) where
  -- `none` is the EXIT_FAILURE of a wrong number of arguments or of a URL that does not parse;
  -- otherwise `request` was spawned.
  pub spawn : Option urls.Url → P.State → Option (Client P S net)
  unfolding visit_of
  spawn none p = none
  spawn (some url) p = some (request P S net R zlib start urls (visit_of urls url) p)

  -- `argv`, the name of the program included.
  unfoldable pub main : List Text → P.State → Option (Client P S net)
  unfolding spawn
  main [] p = none
  main (name ∷ []) p = none
  main (name ∷ (url ∷ [])) p = spawn (urls.parse_uri url) p
  main (name ∷ (url ∷ (more ∷ args))) p = none

  -- EXIT_SUCCESS and EXIT_FAILURE; an exception of `request` leaves ioc.run() and is caught. `none`:
  -- the event loop has not come to an end.
  pub pending_exit_code : Pending P S net → Option ℕ
  pending_exit_code returned = some 0
  pending_exit_code (threw x) = some 1
  pending_exit_code p = none

  unfoldable pub exit_code :
      Option (Client P S net) → List (ClientEvent E.Code net.Results) → Option ℕ
  unfolding pending_exit_code
  exit_code none es = some 1
  exit_code (some w) es = pending_exit_code (run P S net R zlib start urls w es).pending

  exit_code-none : (es : List (ClientEvent E.Code net.Results)) → exit_code none es ≢ some 0
  unfolding exit_code
  exit_code-none es h = ground arith

  exit_code-returned : (p : Pending P S net) → pending_exit_code p ≡ some 0 → p ≡ returned
  unfolding pending_exit_code
  exit_code-returned p h = ground arith

  module _ (L : IsLawful P R) where
    spawned-HasPrinted :
        (o : Option urls.Url) (p : P.State) (es : List (ClientEvent E.Code net.Results))
        → exit_code (spawn o p) es ≡ some 0
        → (w : Client P S net) × (spawn o p ≡ some w)
          × HasPrinted P S net R zlib start L (run P S net R zlib start urls w es)
    unfolding exit_code spawn
    spawned-HasPrinted none p es h = absurd (exit_code-none es h)
    spawned-HasPrinted (some url) p es h = (
      request P S net R zlib start urls (visit_of urls url) p,
      refl,
      request-HasPrinted P S net R zlib start L urls (visit_of urls url) p es
          (exit_code-returned _ h),
    )

    -- With a lawful response parser, which says what of a body is available and what is consumed:
    -- `main` gives EXIT_SUCCESS only if `request` was spawned, its parser is complete and has nothing
    -- of the body left to pull, and what was printed is what was consumed of the body of the last
    -- response.
    pub main-HasPrinted :
        (argv : List Text) (p : P.State) (es : List (ClientEvent E.Code net.Results))
        → exit_code (main argv p) es ≡ some 0
        → (w : Client P S net) × (main argv p ≡ some w)
          × HasPrinted P S net R zlib start L (run P S net R zlib start urls w es)
    unfolding main
    main-HasPrinted [] p es h = absurd (exit_code-none es h)
    main-HasPrinted (name ∷ []) p es h = absurd (exit_code-none es h)
    main-HasPrinted (name ∷ (url ∷ [])) p es h = spawned-HasPrinted (urls.parse_uri url) p es h
    main-HasPrinted (name ∷ (url ∷ (more ∷ args))) p es h = absurd (exit_code-none es h)
