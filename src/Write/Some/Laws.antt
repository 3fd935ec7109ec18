-- ===== src/Write/Some/Laws.antt =====
-- Runs of async_write_some.
use http_io.Common.{ℕ, ◌≡◌, refl, List, [], ◌∷◌}
use http_io.System.{ErrorCodes}
use http_io.Serializer.{Serializer}
use http_io.Write.{Event}
use http_io.Write.Some.{SomeTurn, deliver_some, some_upcall}

module _ (E : ErrorCodes) (S : Serializer E) where
  open E use {Code, success, failed}

  unfoldable pub run_some : SomeTurn E S → List (Event Code) → SomeTurn E S
  run_some t [] = t
  run_some t (e ∷ es) = run_some (deliver_some E S t.action t e) es

  pub run_some-upcall :
      (s : S.State) (c : Code) (n : ℕ) (es : List (Event Code))
      → run_some (some_upcall E S s c n) es ≡ some_upcall E S s c n
  unfolding run_some deliver_some
  run_some-upcall s c n [] = refl
  run_some-upcall s c n (e ∷ es) = run_some-upcall s c n es
