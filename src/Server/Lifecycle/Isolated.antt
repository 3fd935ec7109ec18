-- ===== src/Server/Lifecycle/Isolated.antt =====
-- What the event loop of a server makes of one worker: it sees its own completions, and the stop.
use mathlib.Core.Option
use http_io.Common.{ℕ, ◌≡◌, refl, ap, ◌∙◌, List, [], ◌∷◌, ◌++◌, map, arith}
use http_io.System.{ErrorCodes}
use http_io.Asio.Machine.{drive}
use http_io.Parser.{Parser}
use http_io.Serializer.{Serializer}
use http_io.Server.Request.{Libraries}
use http_io.Server.Worker.{Messages, Setup, run_worker}
use http_io.Server.Lifecycle.Inputs.{
  workers_at, workers_at-run, turned, take_input, stop_input, input, inputs, given, given-run,
  loop-inputs,
}
use http_io.Server.Lifecycle.{
  ServerEvent, signal, timer, worker_event, Acceptor, Server, make_server, run_server, stop,
  on_signal, on_timer, loop_turn, loop,
}

module _ {E : ErrorCodes} (P : Parser E) (S : Serializer E) (lib : Libraries E)
    (msgs : Messages P S) (setup : Setup) where
  -- The server without its services.
  abbrev control : Server P S → Server P S
  control s = record s { v_ = [] }

  turned-control :
      (e : ServerEvent E.Code) (s : Server P S)
      → control (turned P S lib msgs setup e s) ≡ turned P S lib msgs setup e (control s)
  unfolding loop_turn on_signal on_timer stop
  turned-control (signal c) s = ground arith
  turned-control (timer c) s = ground arith
  turned-control (worker_event j e) s = refl

  input-control :
      (i : ℕ) (s : Server P S) (e : ServerEvent E.Code)
      → input P S lib msgs setup i s e ≡ input P S lib msgs setup i (control s) e
  input-control i s (signal c) =
      ap (λ t. stop_input P S lib msgs setup s t) (turned-control (signal c) s)
  input-control i s (timer c) =
      ap (λ t. stop_input P S lib msgs setup s t) (turned-control (timer c) s)
  input-control i s (worker_event j e) = refl

  inputs-control :
      (i : ℕ) (s : Server P S) (es : List (ServerEvent E.Code))
      → inputs P S lib msgs setup i s es ≡ inputs P S lib msgs setup i (control s) es
  inputs-control i s [] = refl
  inputs-control i s (e ∷ es) =
      ap (λ l. l ++ inputs P S lib msgs setup i (turned P S lib msgs setup e s) es)
        (input-control i s e)
      ∙ ap (λ l. input P S lib msgs setup i (control s) e ++ l)
          (inputs-control i (turned P S lib msgs setup e s) es
            ∙ ap (λ t. inputs P S lib msgs setup i t es) (turned-control e s))

  -- Whatever completions come, and with any services: the workers of a started server with some
  -- index are where `run`, and then what comes for that index, bring them: the completions for it,
  -- each with what `is_shutting_down` says when it comes, and a `stop` when the server is stopped.
  -- No other worker has a part in it, and a server without services says when the stop comes.
  pub run_server-IsIsolated :
      (services : List (Acceptor P S)) (i : ℕ) (es : List (ServerEvent E.Code))
      → workers_at P S i (loop P S lib msgs setup (run_server P S (make_server P S services)) es).v_
        ≡ map
            (Option.map (λ w.
              drive
                (take_input P S lib msgs setup)
                (run_worker P S w)
                (inputs P S lib msgs setup i (run_server P S (make_server P S [])) es)))
            (workers_at P S i services)
  unfolding run_server make_server
  run_server-IsIsolated services i es =
      let s = run_server P S (make_server P S services) in
      loop-inputs P S lib msgs setup i s es
      ∙ ap (λ l. map (given P S lib msgs setup l) (workers_at P S i s.v_)) (inputs-control i s es)
      ∙ ap (map (given P S lib msgs setup (inputs P S lib msgs setup i (control s) es)))
          (workers_at-run P S i services)
      ∙ given-run P S lib msgs setup (inputs P S lib msgs setup i (control s) es)
          (workers_at P S i services)
