-- ===== src/Asio/Machine.antt =====
-- A machine that is driven by completions, and that runs operations of the library to their ends
-- before it goes on: the worker of the server, and the client.
use mathlib.Core.List.{map-append}
use http_io.Common.{
  ℕ, ◌≡◌, refl, sym, ap, ◌∙◌, true, false, List, [], ◌∷◌, ◌++◌, map, Bool-cases, inl, inr,
}
use http_io.System.{ErrorCodes}
use http_io.Asio.{Action, complete, is_completed}

module _ {W V : Type 0} (turn : V → W → W) where
  -- One turn of the event loop after another.
  unfoldable pub drive : W → List V → W
  drive w [] = w
  drive w (e ∷ es) = drive (turn e w) es

  pub drive-Inv {κ} :
      (Inv : W → Type κ)
      → ((v : V) (w : W) → Inv w → Inv (turn v w))
      → (w : W) (es : List V) → Inv w
      → Inv (drive w es)
  unfolding drive
  drive-Inv Inv keep w [] i = i
  drive-Inv Inv keep w (e ∷ es) i = drive-Inv Inv keep (turn e w) es (keep e w i)

  pub drive-append : (w : W) (ds es : List V) → drive w (ds ++ es) ≡ drive (drive w ds) es
  unfolding drive
  drive-append w [] es = refl
  drive-append w (d ∷ ds) es = drive-append (turn d w) ds es

  pub drive-first : (w v : W) (ds es : List V) → drive w ds ≡ v → drive w (ds ++ es) ≡ drive v es
  drive-first w v ds es h = drive-append w ds es ∙ ap (λ x. drive x es) h

  -- An operation of the library with its runs, how the machine waits for it, and what the machine
  -- does behind each of its events.
  pub record IsStage {C I T Ev : Type 0} (action : T → Action C I) (step : T → Ev → T)
      (runs : T → List Ev → T) (event : Ev → V) (wait : T → W → W) (after : Action C I → T → W → W)
      : Type 0 where
    pub runs_nil : (t : T) → runs t [] ≡ t
    pub runs_cons : (t : T) (e : Ev) (es : List Ev) → runs t (e ∷ es) ≡ runs (step t e) es
    pub runs_completed : (t : T) (es : List Ev) → is_completed (action t) ≡ true → runs t es ≡ t
    pub steps :
        (t : T) (e : Ev) (w : W)
        → turn (event e) (wait t w) ≡ after (action (step t e)) (step t e) (wait t w)
    pub goes :
        (a : Action C I) (t u : T) (w : W)
        → is_completed a ≡ false
        → after a t (wait u w) ≡ wait t w

  module _ {C I T Ev : Type 0} {action : T → Action C I} {step : T → Ev → T}
      {runs : T → List Ev → T} {event : Ev → V} {wait : T → W → W} {after : Action C I → T → W → W}
      (O : IsStage action step runs event wait after) where
    -- An operation that has not completed had not before either.
    not_completed_before :
        (t : T) (es : List Ev)
        → is_completed (action (runs t es)) ≡ false
        → is_completed (action t) ≡ false
    not_completed_before t es h = elim (Bool-cases (is_completed (action t))) [
      | inl done ↦ cc (h, done, ap (λ u. is_completed (action u)) (O.runs_completed t es done))
      | inr going ↦ going
    ]

    drive-goes :
        (t : T) (es : List Ev) (w : W)
        → is_completed (action (runs t es)) ≡ false
        → drive (wait t w) (map event es) ≡ wait (runs t es) w
    unfolding drive
    drive-goes t [] w n = ap (λ u. wait u w) (sym (O.runs_nil t))
    drive-goes t (e ∷ es) w n =
        let n' : is_completed (action (runs (step t e) es)) ≡ false =
          rw (O.runs_cons t e es) at n in
        ap (λ u. drive u (map event es))
          (O.steps t e w
            ∙ O.goes (action (step t e)) (step t e) t w (not_completed_before (step t e) es n'))
        ∙ drive-goes (step t e) es w n'
        ∙ ap (λ u. wait u w) (sym (O.runs_cons t e es))

    runs-snoc : (t : T) (es : List Ev) (e : Ev) → runs t (es ++ e ∷ []) ≡ step (runs t es) e
    runs-snoc t [] e =
        O.runs_cons t e [] ∙ O.runs_nil (step t e) ∙ ap (λ u. step u e) (sym (O.runs_nil t))
    runs-snoc t (d ∷ es) e =
        O.runs_cons t d (es ++ e ∷ [])
        ∙ runs-snoc (step t d) es e
        ∙ ap (λ u. step u e) (sym (O.runs_cons t d es))

    -- The machine takes in the events of an operation up to its completion, and then goes on.
    pub drive-ends :
        (t : T) (es : List Ev) (e : Ev) (w : W) (c : C) (n : ℕ)
        → is_completed (action (runs t es)) ≡ false
        → action (runs t (es ++ e ∷ [])) ≡ complete c n
        → drive (wait t w) (map event (es ++ e ∷ []))
          ≡ after (complete c n) (runs t (es ++ e ∷ [])) (wait (runs t es) w)
    unfolding drive
    drive-ends t es e w c n going done =
        ap (λ l. drive (wait t w) l) (map-append event es (e ∷ []))
        ∙ drive-append (wait t w) (map event es) (event e ∷ [])
        ∙ ap (λ v. drive v (event e ∷ [])) (drive-goes t es w going)
        ∙ O.steps (runs t es) e w
        ∙ ap (λ v. after (action v) v (wait (runs t es) w)) (sym (runs-snoc t es e))
        ∙ ap (λ a. after a (runs t (es ++ e ∷ [])) (wait (runs t es) w)) done

-- An operation completes with a code of some kind, and with the last of some events.
abbrev pub Completes :
    {C I Ev : Type 0} → (C → Type 0) → (List Ev → Action C I) → List Ev → Ev → Type 0
Completes {C = C} Ok action es e =
    (is_completed (action es) ≡ false)
    × ((c : C) × (n : ℕ) × (action (es ++ e ∷ []) ≡ complete c n) × Ok c)

-- It completes without an error.
abbrev pub Succeeds :
    (E : ErrorCodes) → {I Ev : Type 0} → (List Ev → Action E.Code I) → List Ev → Ev → Type 0
Succeeds E action es e = Completes (λ c. E.failed c ≡ false) action es e
