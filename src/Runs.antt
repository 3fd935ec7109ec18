-- ===== src/Runs.antt =====
-- The runs of async_read_header and of async_write over sequences of events, as the server and the
-- client wait for them.
use http_io.Common.{ℕ, ◌≡◌, ◌≢◌, sym, ◌∙◌, inl, inr, true, false, List, [], ◌∷◌, ◌++◌}
use http_io.System.{ErrorCodes}
use http_io.Asio.Machine.{Succeeds}
use http_io.Parser.{Parser}
use http_io.Serializer.{Serializer, IsLawful}
use http_io.Read
use http_io.Read.{Turn}
use http_io.Read.Input.{heard}
use http_io.Read.Header.{read_header_op, async_read_header}
use http_io.Write
use http_io.Write.All
use http_io.Write.All.{Session, async_write}
use http_io.Write.All.Laws.{AllWithin, async_write-wire}

true-ne-false : true ≢ false
true-ne-false h = cc

module _ (E : ErrorCodes) where
  abbrev pub read_header : (P : Parser E) → P.State → List (Read.Event E.Code) → Turn E P
  read_header P p es = Read.run E P (read_header_op E P) (async_read_header E P p) es

  -- The bytes that it reads.
  abbrev pub heard_header : (P : Parser E) → P.State → List (Read.Event E.Code) → List ℕ
  heard_header P p es = heard E P (read_header_op E P) (async_read_header E P p) es

  abbrev pub write : (S : Serializer E) → S.State → List (Write.Event E.Code) → Session E S
  write S s es = All.run E S (async_write E S s) es

  -- A write that succeeds has put everything on the wire.
  pub write-whole :
      (S : Serializer E) (L : IsLawful E S) (s : S.State) (ws : List (Write.Event E.Code))
      → (u : Write.Event E.Code) → Succeeds E (λ es. (write S s es).action) ws u
      → AllWithin E S (async_write E S s) (ws ++ u ∷ [])
      → (write S s (ws ++ u ∷ [])).wire ≡ L.remaining s
  write-whole S L s ws u (going, (c, n, done, ok)) within =
      elim (async_write-wire E S L s (ws ++ u ∷ []) c n within done).2 [
        | inl bad ↦ absurd (true-ne-false (sym bad ∙ ok))
        | inr whole ↦ whole
      ]
