-- ===== src/Client/Request/Hears.antt =====
-- What the parser of the client is given while it takes in a body, and what it gives out.
use mathlib.Core.List.{append_assoc, append-nil}
use http_io.Common.{ℕ, ◌≡◌, sym, ap, ◌∙◌, Bool, true, List, [], ◌∷◌, ◌++◌}
use http_io.System.{ErrorCodes}
use http_io.Parser.{Parser, IsRecording}
use http_io.Serializer.{flatten}
use http_io.Read
use http_io.Read.{Turn}
use http_io.Read.Input.{heard}
use http_io.Read.Body.{read_body_op}
use http_io.Read.Body.Input.{read_body-hears}
use http_io.Read.Body.Keeps.{run_body-keeps}
use http_io.Read.Body.Laws.{async_body-started}
use http_io.Client.Libraries.{ResponseParser, IsLawful}
use http_io.Client.Body.{drained, consume_all-keeps, drained-consumes}
use http_io.Client.Request.Fetch.{Fetches, whole, more}

module _ {E : ErrorCodes} (P : Parser E) (R : ResponseParser P) where
  -- The bytes that the reads of a body bring.
  abbrev pub heard_body :
      {p q : P.State} {es : List (Read.Event E.Code)} {body : List ℕ}
      → Fetches P R p es q body
      → List ℕ
  heard_body (whole p done) = []
  heard_body (more p q t es rest e body on begun proceeds f) =
      heard E P (read_body_op E P true) t (es ++ e ∷ []) ++ heard_body f

  pub Fetches-is_complete :
      {p q : P.State} {es : List (Read.Event E.Code)} {body : List ℕ}
      → Fetches P R p es q body
      → P.is_complete q ≡ true
  Fetches-is_complete (whole p done) = done
  Fetches-is_complete (more p q t es rest e body on begun proceeds f) = Fetches-is_complete f

  module _ (is_whole : List ℕ → Bool) (I : IsRecording P is_whole)
      (kept : (n : ℕ) (p : P.State) → I.input (R.consume_body n p) ≡ I.input p) where
    pub Fetches-hears :
        {p q : P.State} {es : List (Read.Event E.Code)} {body : List ℕ}
        → (f : Fetches P R p es q body) → I.input q ≡ I.input p ++ heard_body f
    Fetches-hears (whole p done) =
        consume_all-keeps P R I.input kept (R.pull_body p) p ∙ sym (append-nil (I.input p))
    Fetches-hears (more p q t es rest e body on begun proceeds f) =
        let d = drained P R p in
        let heard_now = heard E P (read_body_op E P true) t (es ++ e ∷ []) in
        let same = async_body-started E P true d t begun in
        let now : I.input (Read.run E P (read_body_op E P true) t (es ++ e ∷ [])).parser
            ≡ I.input d ++ heard_now =
          rw same (read_body-hears E P is_whole I true d (es ++ e ∷ [])) in
        Fetches-hears f
        ∙ ap (λ l. l ++ heard_body f)
            (now ∙ ap (λ l. l ++ heard_now) (consume_all-keeps P R I.input kept (R.pull_body p) p))
        ∙ append_assoc (I.input p) heard_now (heard_body f)

  module _ (L : IsLawful P R) where
    open L use {available, consumed}

    -- All that is consumed of a body is printed, and nothing is left.
    pub Fetches-consumes :
        {p q : P.State} {es : List (Read.Event E.Code)} {body : List ℕ}
        → Fetches P R p es q body
        → (available q ≡ []) × (consumed q ≡ consumed p ++ body)
    Fetches-consumes (whole p done) = drained-consumes P R L p
    Fetches-consumes (more p q t es rest e body on begun proceeds f) =
        let d = drained P R p in
        let printed = flatten (R.pull_body p) in
        let same = async_body-started E P true d t begun in
        let now : consumed (Read.run E P (read_body_op E P true) t (es ++ e ∷ [])).parser
            ≡ consumed p ++ printed =
          rw same (
            run_body-keeps E P (λ r. consumed r ≡ consumed p ++ printed)
              (L.consumed_kept (consumed p ++ printed)) true d (es ++ e ∷ [])
              (drained-consumes P R L p).1) in
        let (none_left, all) = Fetches-consumes f in
        (none_left, all ∙ ap (λ l. l ++ body) now ∙ append_assoc (consumed p) printed body)
