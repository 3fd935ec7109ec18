-- ===== src/Server/Lifecycle/Inputs.antt =====
-- What a turn of the server's event loop brings to one worker.
use mathlib.Core.Option
use http_io.Common.{
  ℕ, suc, ◌-◌, ◌≡◌, refl, sym, ap, subst, ◌∙◌, Bool, true, false, not, ◌&&◌, List, [], ◌∷◌, ◌++◌,
  map, Option, none, some, arith, get_elem?, get_elem?-map, ◌==◌, if◌then◌else◌, Bool-cases, inl,
  inr,
}
use http_io.System.{ErrorCodes}
use http_io.Asio.Machine.{drive, drive-append}
use http_io.Parser.{Parser}
use http_io.Serializer.{Serializer}
use http_io.Server.Request.{Libraries}
use http_io.Server.Worker.{Messages, Setup, WorkerEvent, Worker, run_worker, stop_worker, on_event}
use http_io.Server.Lifecycle.Cancels.{stop-stopped, stop-going}
use http_io.Server.Lifecycle.{
  ServerEvent, signal, timer, worker_event, Acceptor, Server, run_acceptor, stop_acceptor, stop,
  on_signal, on_timer, update_worker, update_acceptor, loop_turn, loop,
}

-- What a worker gets: a completion of its own, with what `is_shutting_down` says when it comes, or
-- the call of `stop`.
pub data Input (C : Type 0) : Type 0 where
  own_event : Bool → WorkerEvent C → Input C
  stopped : Input C

module _ {E : ErrorCodes} (P : Parser E) (S : Serializer E) where
  -- The worker with the same index of each service.
  abbrev pub workers_at : ℕ → List (Acceptor P S) → List (Option (Worker P S))
  workers_at i v = map (λ a. get_elem? a.workers i) v

  pub workers_at-run :
      (i : ℕ) (v : List (Acceptor P S))
      → workers_at i (map (run_acceptor P S) v) ≡ map (Option.map (run_worker P S)) (workers_at i v)
  unfolding run_acceptor
  workers_at-run i [] = refl
  workers_at-run i (a ∷ v) = rw (get_elem?-map (run_worker P S) a.workers i, workers_at-run i v)

  module _ (lib : Libraries E) (msgs : Messages P S) (setup : Setup) where
    abbrev pub turned : ServerEvent E.Code → Server P S → Server P S
    turned = loop_turn P S lib msgs setup

    abbrev pub take_input : Input E.Code → Worker P S → Worker P S
    take_input (own_event b e) w = on_event P S lib msgs setup b e w
    take_input stopped w = stop_worker P S w

    abbrev pub stop_input : Server P S → Server P S → List (Input E.Code)
    stop_input s t = if not s.is_stopped && t.is_stopped then stopped ∷ [] else []

    -- What one turn of the event loop brings to the worker with an index.
    abbrev pub input : ℕ → Server P S → ServerEvent E.Code → List (Input E.Code)
    input i s (worker_event j e) = if j == i then own_event s.is_shutting_down e ∷ [] else []
    input i s e = stop_input s (turned e s)

    abbrev pub inputs : ℕ → Server P S → List (ServerEvent E.Code) → List (Input E.Code)
    inputs i s [] = []
    inputs i s (e ∷ es) = input i s e ++ inputs i (turned e s) es

    abbrev pub given : List (Input E.Code) → Option (Worker P S) → Option (Worker P S)
    given l = Option.map (λ w. drive take_input w l)

    given_nil : (o : Option (Worker P S)) → given [] o ≡ o
    unfolding drive
    given_nil none = refl
    given_nil (some w) = refl

    given-append :
        (l r : List (Input E.Code)) (os : List (Option (Worker P S)))
        → map (given (l ++ r)) os ≡ map (given r) (map (given l) os)
    given-append l r [] = refl
    given-append l r (none ∷ os) = ap (λ l. none ∷ l) (given-append l r os)
    given-append l r (some w ∷ os) = rw (drive-append take_input w l r, given-append l r os)

    pub given-run :
        (l : List (Input E.Code)) (os : List (Option (Worker P S)))
        → map (given l) (map (Option.map (run_worker P S)) os)
          ≡ map (Option.map (λ w. drive take_input (run_worker P S w) l)) os
    given-run l [] = refl
    given-run l (none ∷ os) = ap (λ r. none ∷ r) (given-run l os)
    given-run l (some w ∷ os) =
        ap (λ r. some (drive take_input (run_worker P S w) l) ∷ r) (given-run l os)

    update-get :
        (b : Bool) (j i : ℕ) (e : WorkerEvent E.Code) (ws : List (Worker P S))
        → get_elem? (update_worker P S lib msgs setup b j e ws) i
          ≡ given (if j == i then own_event b e ∷ [] else []) (get_elem? ws i)
    unfolding update_worker drive
    update-get b j i e [] = refl
    update-get b ℕ.zero ℕ.zero e (w ∷ ws) = refl
    update-get b ℕ.zero (suc i) e (w ∷ ws) =
        let other : (0 == suc i) ≡ false = ground arith in
        rw other (sym (given_nil (get_elem? ws i)))
    update-get b (suc j) ℕ.zero e (w ∷ ws) =
        let other : (suc j == 0) ≡ false = ground arith in rw other
    update-get b (suc j) (suc i) e (w ∷ ws) =
        let same : (suc j == suc i) ≡ (j == i) = ground arith in rw same (update-get b j i e ws)

    workers_at-nil :
        (i : ℕ) (v : List (Acceptor P S)) → workers_at i v ≡ map (given []) (workers_at i v)
    workers_at-nil i [] = refl
    workers_at-nil i (a ∷ v) = rw (given_nil (get_elem? a.workers i), ← workers_at-nil i v)

    workers_at-stop :
        (i : ℕ) (v : List (Acceptor P S))
        → workers_at i (map (stop_acceptor P S) v) ≡ map (given (stopped ∷ [])) (workers_at i v)
    unfolding stop_acceptor drive
    workers_at-stop i [] = refl
    workers_at-stop i (a ∷ v) =
        rw (get_elem?-map (stop_worker P S) a.workers i, workers_at-stop i v)

    workers_at-update :
        (b : Bool) (j i : ℕ) (e : WorkerEvent E.Code) (v : List (Acceptor P S))
        → workers_at i (map (update_acceptor P S lib msgs setup b j e) v)
          ≡ map (given (if j == i then own_event b e ∷ [] else [])) (workers_at i v)
    unfolding update_acceptor
    workers_at-update b j i e [] = refl
    workers_at-update b j i e (a ∷ v) =
        rw (update-get b j i e a.workers, workers_at-update b j i e v)

    -- The workers with the index get the stop, if there is one.
    abbrev IsTurn : ℕ → Server P S → Server P S → Type 0
    IsTurn i s t = workers_at i t.v_ ≡ map (given (stop_input s t)) (workers_at i s.v_)

    kept-IsTurn :
        (i : ℕ) (s t : Server P S) → t.v_ ≡ s.v_ → t.is_stopped ≡ s.is_stopped → IsTurn i s t
    kept-IsTurn i s t e k =
        let none_stopped : (not s.is_stopped && s.is_stopped) ≡ false = ground arith in
        rw (e, k, none_stopped) (workers_at-nil i s.v_)

    stopped-IsTurn :
        (i : ℕ) (s t : Server P S)
        → s.is_stopped ≡ false
        → t.is_stopped ≡ true
        → t.v_ ≡ map (stop_acceptor P S) s.v_
        → IsTurn i s t
    stopped-IsTurn i s t going k v = rw (going, k, v) (workers_at-stop i s.v_)

    stop-IsTurn : (i : ℕ) (s : Server P S) → IsTurn i s (stop P S s)
    stop-IsTurn i s = elim (Bool-cases s.is_stopped) [
      | inl done ↦
          let same = stop-stopped P S s done in
          kept-IsTurn i s (stop P S s) (ap (λ t. t.v_) same) (ap (λ t. t.is_stopped) same)
      | inr going ↦ let (k, v) = stop-going P S s going in stopped-IsTurn i s (stop P S s) going k v
    ]

    on_signal-second :
        (c : E.Code) (s : Server P S) → s.is_shutting_down ≡ true → on_signal P S c s ≡ stop P S s
    unfolding on_signal
    on_signal-second c s h = ground arith

    on_signal-first :
        (c : E.Code) (s : Server P S)
        → s.is_shutting_down ≡ false
        → ((on_signal P S c s).v_ ≡ s.v_) × ((on_signal P S c s).is_stopped ≡ s.is_stopped)
    unfolding on_signal
    on_signal-first c s h = ground arith

    on_signal-IsTurn : (i : ℕ) (c : E.Code) (s : Server P S) → IsTurn i s (on_signal P S c s)
    on_signal-IsTurn i c s = elim (Bool-cases s.is_shutting_down) [
      | inl second ↦ subst (IsTurn i s) (sym (on_signal-second c s second)) (stop-IsTurn i s)
      | inr first ↦
          let (v, k) = on_signal-first c s first in kept-IsTurn i s (on_signal P S c s) v k
    ]

    on_timer-IsTurn : (i : ℕ) (c : E.Code) (s : Server P S) → IsTurn i s (on_timer P S c s)
    unfolding on_timer
    on_timer-IsTurn i c s = elim (Bool-cases (E.failed c)) [
      | inl bad ↦ rw bad (kept-IsTurn i s s refl refl)
      | inr good ↦ rw good (stop-IsTurn i s)
    ]

    turned-input :
        (i : ℕ) (e : ServerEvent E.Code) (s : Server P S)
        → workers_at i (turned e s).v_ ≡ map (given (input i s e)) (workers_at i s.v_)
    unfolding loop_turn
    turned-input i (signal c) s = elim (Bool-cases (s.signal_waits == 0)) [
      | inl none_due ↦ rw none_due (kept-IsTurn i s s refl refl)
      | inr due ↦ rw due (on_signal-IsTurn i c (record s { signal_waits = s.signal_waits - 1 }))
    ]
    turned-input i (timer c) s = elim (Bool-cases (s.timer_waits == 0)) [
      | inl none_due ↦ rw none_due (kept-IsTurn i s s refl refl)
      | inr due ↦ rw due (on_timer-IsTurn i c (record s { timer_waits = s.timer_waits - 1 }))
    ]
    turned-input i (worker_event j e) s = workers_at-update s.is_shutting_down j i e s.v_

    pub loop-inputs :
        (i : ℕ) (s : Server P S) (es : List (ServerEvent E.Code))
        → workers_at i (loop P S lib msgs setup s es).v_
          ≡ map (given (inputs i s es)) (workers_at i s.v_)
    unfolding loop
    loop-inputs i s [] = workers_at-nil i s.v_
    loop-inputs i s (e ∷ es) =
        loop-inputs i (turned e s) es
        ∙ ap (map (given (inputs i (turned e s) es))) (turned-input i e s)
        ∙ sym (given-append (input i s e) (inputs i (turned e s) es) (workers_at i s.v_))
