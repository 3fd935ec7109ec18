-- ===== src/Server/Worker/Decoding.antt =====
-- The message that a worker takes from the stream of its connection in one round.
use mathlib.Core.List.{append_assoc}
use http_io.Common.{ℕ, ◌≡◌, sym, ap, ◌∙◌, Bool, true, false, List, [], ◌∷◌, ◌++◌}
use http_io.System.{ErrorCodes}
use http_io.Parser.{Parser, IsLawful, IsRecording}
use http_io.Serializer
use http_io.Serializer.{Serializer}
use http_io.Read.Input.{heard}
use http_io.Read.Header.Input.{read_header-hears}
use http_io.Read.Header.Laws.{async_read_header-got_header}
use http_io.Read.Body.{read_body_op, begin_body, async_read}
use http_io.Read.Body.Input.{read_body-hears}
use http_io.Read.Body.Laws.{async_read-is_complete}
use http_io.Framing.{IsPrefixFree, IsStarting, first_message}
use http_io.Server.Request.{Libraries, Request, Effect}
use http_io.Server.Worker.{Messages, Setup}
use http_io.Server.Worker.Connection.{Serving, got_header, got_body, Goes, heard_round}

-- What the parts of Boost.Http.Proto between the reads and the writes make of bytes: a complete
-- parser holds the request that its first message stands for, and a serializer that is started has
-- to send what the response stands for.
pub record IsCoding {E : ErrorCodes} (P : Parser E) (S : Serializer E) (is_whole : List ℕ → Bool)
    (I : IsRecording P is_whole) (L : Serializer.IsLawful E S) (msgs : Messages P S) : Type 0 where
  pub decode : List ℕ → Request
  pub encode : List Effect → List ℕ
  pub get_lem :
      (p : P.State) (m rest : List ℕ)
      → P.is_complete p ≡ true
      → I.input p ≡ m ++ rest
      → is_whole m ≡ true
      → msgs.get p ≡ decode m
  pub remaining-start : (es : List Effect) (s : S.State) → L.remaining (msgs.start es s) ≡ encode es

module _ {E : ErrorCodes} (P : Parser E) (S : Serializer E) (lib : Libraries E)
    (msgs : Messages P S) (setup : Setup) (b : Bool) (is_whole : List ℕ → Bool)
    (free : IsPrefixFree is_whole) (lawful : IsLawful E P) (I : IsRecording P is_whole)
    (starts : IsStarting P is_whole I) (L : Serializer.IsLawful E S)
    (C : IsCoding P S is_whole I L msgs) where
  got_body-is_complete :
      (p : P.State) (s : S.State) (r : Serving E.Code)
      → Goes P S lib msgs setup b p s r
      → P.is_complete (got_body P S lib msgs setup b p r) ≡ true
  unfolding async_read
  got_body-is_complete p s r ((_, (c, n, done, ok)), (_, (d, m, read, good)), _, _, _) =
      let q = got_header P S lib msgs setup b p r in
      let got =
        async_read_header-got_header E P lawful (P.start p) (r.header ++ r.header_end ∷ []) c n done
          ok in
      async_read-is_complete E P lawful q (begin_body E P false q) (r.body ++ r.body_end ∷ []) d m
        (rw got) read good

  got_body-hears :
      (p : P.State) (r : Serving E.Code)
      → I.input (got_body P S lib msgs setup b p r)
        ≡ I.input (P.start p) ++ heard_round P S lib msgs setup b p r
  got_body-hears p r =
      let q = got_header P S lib msgs setup b p r in
      let hs = r.header ++ r.header_end ∷ [] in
      let bs = r.body ++ r.body_end ∷ [] in
      let heard_body = heard E P (read_body_op E P false) (begin_body E P false q) bs in
      read_body-hears E P is_whole I false q bs
      ∙ ap (λ l. l ++ heard_body) (read_header-hears E P is_whole I (P.start p) hs)
      ∙ append_assoc (I.input (P.start p)) _ heard_body

  -- A round takes the next message from the stream.
  pub takes_message :
      (p : P.State) (s : S.State) (r : Serving E.Code) (x y : List ℕ)
      → Goes P S lib msgs setup b p s r
      → is_whole r.message ≡ true
      → I.input (P.start p) ++ (heard_round P S lib msgs setup b p r ++ x) ≡ r.message ++ y
      → (msgs.get (got_body P S lib msgs setup b p r) ≡ C.decode r.message)
        × (I.input (P.start (got_body P S lib msgs setup b p r)) ++ x ≡ y)
  takes_message p s r x y goes whole stream =
      let q = got_body P S lib msgs setup b p r in
      let done = got_body-is_complete p s r goes in
      let (m, rest, starts_so, whole_m) = I.whole_of_complete q done in
      let (same, tail) = first_message is_whole free m r.message (rest ++ x) y whole_m whole (
        sym (append_assoc m rest x)
        ∙ ap (λ l. l ++ x) (sym starts_so ∙ got_body-hears p r)
        ∙ append_assoc (I.input (P.start p)) (heard_round P S lib msgs setup b p r) x
        ∙ stream) in
      (
        C.get_lem q m rest done starts_so whole_m ∙ ap C.decode same,
        ap (λ l. l ++ x) (starts q m rest done starts_so whole_m) ∙ tail,
      )
