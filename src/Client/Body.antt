-- ===== src/Client/Body.antt =====
-- The loop over the buffers of `pull_body`, on the parser of the client.
use http_io.Common.{
  ℕ, ◌≤◌, ◌≡◌, refl, sym, ap, ◌∙◌, [], ◌∷◌, ◌++◌, arith, length, length-append, take,
  take-append_self, drop-append_self,
}
use mathlib.Core.List.{append_assoc, append-nil}
use http_io.System.{ErrorCodes}
use http_io.Parser.{Parser}
use http_io.Serializer.{Buffers, flatten}
use http_io.Client.Libraries.{ResponseParser, IsLawful}

module _ {E : ErrorCodes} (P : Parser E) (R : ResponseParser P) where
  -- The parser behind the loop over some buffers.
  abbrev pub consume_all : Buffers → P.State → P.State
  consume_all [] p = p
  consume_all (b ∷ bs) p = consume_all bs (R.consume_body (length b) p)

  abbrev pub drained : P.State → P.State
  drained p = consume_all (R.pull_body p) p

  -- What is left alone by `consume_body` is left alone by the loop.
  pub consume_all-keeps {κ} :
      {A : Type κ} (f : P.State → A)
      → ((n : ℕ) (p : P.State) → f (R.consume_body n p) ≡ f p)
      → (bs : Buffers) (p : P.State) → f (consume_all bs p) ≡ f p
  consume_all-keeps f keep [] p = refl
  consume_all-keeps f keep (b ∷ bs) p =
      consume_all-keeps f keep bs (R.consume_body (length b) p) ∙ keep (length b) p

  module _ (L : IsLawful P R) where
    open L use {available, consumed}

    pub consume_all-consumes :
        (bs : Buffers) (p : P.State)
        → flatten bs ≡ available p
        → (available (consume_all bs p) ≡ [])
          × (consumed (consume_all bs p) ≡ consumed p ++ flatten bs)
    consume_all-consumes [] p h = (sym h, sym (append-nil (consumed p)))
    consume_all-consumes (b ∷ bs) p h =
        let fits : length b ≤ length (available p) =
          omega (arith, length-append b (flatten bs), ap length h) in
        let (none_left, all) = consume_all-consumes bs (R.consume_body (length b) p) (
          rw (L.available-consume_body (length b) p fits, ← h)
            (sym (drop-append_self b (flatten bs)))) in
        (
          none_left,
          all
              ∙ ap (λ l. l ++ flatten bs)
                  (L.consumed-consume_body (length b) p fits
                    ∙ ap (λ l. consumed p ++ l)
                        (ap (take (length b)) (sym h) ∙ take-append_self b (flatten bs)))
              ∙ append_assoc (consumed p) b (flatten bs),
        )

    pub drained-consumes :
        (p : P.State)
        → (available (drained p) ≡ [])
          × (consumed (drained p) ≡ consumed p ++ flatten (R.pull_body p))
    drained-consumes p = consume_all-consumes (R.pull_body p) p (L.pull_body_lem p)
