-- ===== src/Server/Lifecycle/Serves.antt =====
-- A started server serves the connection of each worker, whatever its other workers do.
use http_io.Common.{
  ℕ, ◌≡◌, refl, sym, ap, subst, ◌∙◌, Bool, false, List, [], ◌∷◌, ◌++◌, map, some, arith, get_elem?,
  ◌==◌, not, ◌&&◌, inl, inr, Bool-cases, if◌then◌else◌,
}
use http_io.System.{ErrorCodes}
use http_io.Asio.Machine.{drive}
use http_io.Parser.{Parser, IsLawful, IsRecording}
use http_io.Serializer
use http_io.Serializer.{Serializer}
use http_io.Framing.{IsPrefixFree, IsStarting}
use http_io.Server.Request.{Libraries}
use http_io.Server.Worker.{
  close, Messages, Setup, WorkerEvent, accepted, Worker, run_worker, do_accept, call_socket,
  on_event,
}
use http_io.Server.Worker.Connection.{Serving, messages, AllWhole, events, AllGo, heard_all, sent}
use http_io.Server.Worker.Decoding.{IsCoding}
use http_io.Server.Worker.Replies.{replies, HasServed, serve-HasServed}
use http_io.Server.Lifecycle.{
  ServerEvent, signal, timer, worker_event, Acceptor, Server, make_server, run_server, loop_turn,
  loop,
}
use http_io.Server.Lifecycle.Inputs.{Input, own_event, workers_at, take_input, stop_input, inputs}
use http_io.Server.Lifecycle.Isolated.{run_server-IsIsolated}

-- No signal completes.
abbrev pub IsQuiet : {C : Type 0} → List (ServerEvent C) → Type 0
IsQuiet [] = Unit
IsQuiet (signal c ∷ es) = ⊥
IsQuiet (timer c ∷ es) = IsQuiet es
IsQuiet (worker_event j e ∷ es) = IsQuiet es

-- The completions for the worker with an index, in their order.
abbrev pub own_events : {C : Type 0} → ℕ → List (ServerEvent C) → List (WorkerEvent C)
own_events i [] = []
own_events i (worker_event j e ∷ es) =
    let rest = own_events i es in if j == i then e ∷ rest else rest
own_events i (e ∷ es) = own_events i es

module _ {E : ErrorCodes} (P : Parser E) (S : Serializer E) (lib : Libraries E)
    (msgs : Messages P S) (setup : Setup) where
  -- The server has had no signal.
  abbrev IsRunning : Server P S → Type 0
  IsRunning s = (s.is_shutting_down ≡ false) × (s.timer_waits ≡ 0)

  timer-IsRunning :
      (c : E.Code) (s : Server P S) → IsRunning s → loop_turn P S lib msgs setup (timer c) s ≡ s
  unfolding loop_turn
  timer-IsRunning c s h = ground arith

  worker-IsRunning :
      (j : ℕ) (e : WorkerEvent E.Code) (s : Server P S)
      → IsRunning s
      → IsRunning (loop_turn P S lib msgs setup (worker_event j e) s)
  unfolding loop_turn
  worker-IsRunning j e s h = h

  own_events-cons :
      (b : Bool) (j i : ℕ) (e : WorkerEvent E.Code) (es : List (ServerEvent E.Code))
      → (l : List (Input E.Code)) → b ≡ false
      → l ≡ map (own_event false) (own_events i es)
      → (if j == i then own_event b e ∷ [] else []) ++ l
        ≡ map (own_event false) (own_events i (worker_event j e ∷ es))
  own_events-cons b j i e es l h rest = elim (Bool-cases (j == i)) [
    | inl own ↦ rw (own, h) (ap (λ r. own_event false e ∷ r) rest)
    | inr other ↦ rw other rest
  ]

  inputs-IsQuiet :
      (i : ℕ) (es : List (ServerEvent E.Code)) (s : Server P S)
      → IsQuiet es
      → IsRunning s
      → inputs P S lib msgs setup i s es ≡ map (own_event false) (own_events i es)
  inputs-IsQuiet i [] s q h = refl
  inputs-IsQuiet i (signal c ∷ es) s q h = absurd q
  inputs-IsQuiet i (timer c ∷ es) s q h =
      let going : (not s.is_stopped && s.is_stopped) ≡ false = ground arith in
      subst
        (λ t.
          stop_input P S lib msgs setup s t ++ inputs P S lib msgs setup i t es
          ≡ map (own_event false) (own_events i es))
        (sym (timer-IsRunning c s h)) (rw going (inputs-IsQuiet i es s q h))
  inputs-IsQuiet i (worker_event j e ∷ es) s q h =
      let s' = loop_turn P S lib msgs setup (worker_event j e) s in
      let rest = inputs-IsQuiet i es s' q (worker-IsRunning j e s h) in
      own_events-cons s.is_shutting_down j i e es _ h.0 rest

  drive-own :
      (w : Worker P S) (l : List (WorkerEvent E.Code))
      → drive (take_input P S lib msgs setup) w (map (own_event false) l)
        ≡ drive (on_event P S lib msgs setup false) w l
  unfolding drive
  drive-own w [] = refl
  drive-own w (e ∷ l) = drive-own (on_event P S lib msgs setup false e w) l

  -- The worker with an index of a started server with one acceptor, as long as no signal completes.
  worker-drive :
      (a : Acceptor P S) (i : ℕ) (w : Worker P S) (es : List (ServerEvent E.Code))
      → IsQuiet es
      → get_elem? a.workers i ≡ some w
      → workers_at P S i (loop P S lib msgs setup (run_server P S (make_server P S (a ∷ []))) es).v_
        ≡ some (drive (on_event P S lib msgs setup false) (run_worker P S w) (own_events i es)) ∷ []
  unfolding run_server make_server
  worker-drive a i w es q h =
      let s = run_server P S (make_server P S []) in
      let own : inputs P S lib msgs setup i s es ≡ map (own_event false) (own_events i es) =
        inputs-IsQuiet i es s q (refl, refl) in
      run_server-IsIsolated P S lib msgs setup (a ∷ []) i es
      ∙ rw (h, own) (ap (λ v. some v ∷ []) (drive-own (run_worker P S w) (own_events i es)))

  module _ (is_whole : List ℕ → Bool) (free : IsPrefixFree is_whole) (lawful : IsLawful E P)
      (I : IsRecording P is_whole) (starts : IsStarting P is_whole I) (L : Serializer.IsLawful E S)
      (C : IsCoding P S is_whole I L msgs) where
    -- A started server with one acceptor, over a lawful parser and serializer: the completions for
    -- one of its workers, in their order, are an accept and those of a stream of whole messages and
    -- of what follows them, of which it reads a first part in whatever pieces. When these reads and
    -- writes succeed, no write takes more than it is offered, the answers are defined, and all but
    -- the last keep the connection, then this worker has sent the replies to the messages in their
    -- order, has the last reply, and waits for the next request with all that it read behind the
    -- messages, or has closed the connection and waits for the next; whatever completes for the
    -- other workers and the timer in between, if no signal does. Whole messages are prefix-free, and
    -- the parser keeps what is committed to it.
    pub run_server-HasServed :
        (a : Acceptor P S) (i : ℕ) (w : Worker P S) (es : List (ServerEvent E.Code))
        → (c : E.Code) (r : Serving E.Code) (rs : List (Serving E.Code)) (later future : List ℕ)
        → get_elem? a.workers i ≡ some w
        → IsQuiet es
        → own_events i es ≡ accepted c ∷ events (r ∷ rs)
        → E.failed c ≡ false
        → AllWhole is_whole (r ∷ rs)
        → AllGo P S lib msgs setup false (P.reset w.parser) w.serializer (r ∷ rs)
        → I.input (P.start (P.reset w.parser))
            ++ (heard_all P S lib msgs setup false (P.reset w.parser) w.serializer (r ∷ rs)
                ++ later)
          ≡ messages (r ∷ rs) ++ future
        → (v : Worker P S) × (workers_at P S i
              (loop P S lib msgs setup (run_server P S (make_server P S (a ∷ []))) es).v_
            ≡ some v ∷ [])
          × (sent P S lib msgs setup false (P.reset w.parser) w.serializer (r ∷ rs)
              ≡ replies P S lib msgs setup false is_whole free lawful I starts L C (r ∷ rs))
          × HasServed P S lib msgs setup false is_whole free lawful I starts L C r rs later future
              (w.calls ++ close ∷ [])
              v
    unfolding run_worker do_accept call_socket
    run_server-HasServed a i w es c r rs later future at quiet own ok whole goes stream =
        let T = on_event P S lib msgs setup false in
        let (wire, left) =
          serve-HasServed P S lib msgs setup false is_whole free lawful I starts L C c r rs
            (run_worker P S w) later future refl ok whole goes stream in
        (
          drive T (run_worker P S w) (accepted c ∷ events (r ∷ rs)),
          worker-drive a i w es quiet at ∙ ap (λ l. some (drive T (run_worker P S w) l) ∷ []) own,
          wire,
          left,
        )
