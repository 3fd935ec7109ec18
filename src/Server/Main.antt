-- ===== src/Server/Main.antt =====
-- `main` of example/server/main.cpp, up to the event loop.
use http_io.Common.{
  ℕ, ◌+◌, ◌-◌, ◌%◌, ◌^◌, ◌<◌, ◌≤◌, ◌≢◌, ◌≡◌, refl, ap, ◌∙◌, Bool, ◌&&◌, List, [], ◌∷◌, map, Option,
  none, some, arith, ltb, if◌then◌else◌,
}
use http_io.System.{ErrorCodes, size_mod}
use http_io.Parser.{Parser}
use http_io.Serializer.{Serializer}
use http_io.Text.{Text}
use http_io.Server.Worker.{Worker, accepting, run_worker}
use http_io.Server.Lifecycle.{Acceptor, Server, make_server, run_acceptor, run_server}
use http_io.Server.Setup.{make_acceptor, ids, ids_from, make_acceptor-ids}

-- What `main` calls: asio::ip::make_address, which throws where it gives `none`; std::atoi, whose int
-- is given by its 32 bits; and whether the acceptor's socket and the memory for that many workers
-- can be had, without which the constructors throw.
pub record System : Type 1 where
  pub Address : Type 0
  pub make_address : Text → Option Address
  pub atoi : Text → ℕ
  pub can_listen : Address → ℕ → Bool
  pub can_allocate : ℕ → Bool

-- static_cast<unsigned short>(int)
unfoldable pub to_port : ℕ → ℕ
to_port bits = bits % 2 ^ 16

-- The conversion of an int to std::size_t, which extends the sign.
unfoldable pub to_size : ℕ → ℕ
to_size bits = if ltb bits (2 ^ 31) then bits else bits + (size_mod - 2 ^ 32)

to_size-small : (bits : ℕ) → bits < 2 ^ 31 → to_size bits ≡ bits
unfolding to_size
to_size-small bits h = ground arith

-- A negative number of workers becomes one of the largest sizes.
to_size-negative : (bits : ℕ) → 2 ^ 31 ≤ bits → bits < 2 ^ 32 → size_mod ≤ to_size bits + 2 ^ 31
unfolding to_size
to_size-negative bits h k = ground arith

none-ne-some {ℓ} : {A : Type ℓ} (a : A) → none ≢ some a
none-ne-some a h = ground arith

module _ {E : ErrorCodes} (P : Parser E) (S : Serializer E) (parser : P.State) (sr : S.State)
    (sys : System) where
  -- What `main` gives to the event loop.
  pub record Program : Type 0 where
    pub server : Server P S
    pub address : sys.Address
    pub port : ℕ
    pub doc_root : Text

  pub listen : Option sys.Address → ℕ → Text → ℕ → Option Program
  unfolding make_acceptor
  listen none port doc_root num_workers = none
  listen (some address) port doc_root num_workers =
      if sys.can_listen address port && sys.can_allocate num_workers
      then some (record {
        server = run_server P S (make_server P S (make_acceptor P S parser sr num_workers ∷ []));
        address = address;
        port = port;
        doc_root = doc_root;
      })
      else none

  -- `none` is EXIT_FAILURE: a wrong number of arguments, or an exception. `argv` has the name of the
  -- program in front.
  unfoldable pub main : List Text → Option Program
  unfolding listen to_port to_size
  main (name ∷ (address ∷ (port ∷ (doc_root ∷ (workers ∷ []))))) =
      listen (sys.make_address address) (to_port (sys.atoi port)) doc_root
        (to_size (sys.atoi workers))
  main argv = none

  abbrev pub AllAccepting : List (Worker P S) → Type 0
  AllAccepting [] = Unit
  AllAccepting (w ∷ ws) = (w.pending ≡ accepting) × AllAccepting ws

  run_workers-AllAccepting : (ws : List (Worker P S)) → AllAccepting (map (run_worker P S) ws)
  unfolding run_worker
  run_workers-AllAccepting [] = tt
  run_workers-AllAccepting (w ∷ ws) = (refl, run_workers-AllAccepting ws)

  ids-run_workers :
      (ws : List (Worker P S)) → ids P S parser sr (map (run_worker P S) ws) ≡ ids P S parser sr ws
  unfolding run_worker
  ids-run_workers [] = refl
  ids-run_workers (w ∷ ws) = ap (λ l. w.id_ ∷ l) (ids-run_workers ws)

  listen-serves :
      (o : Option sys.Address) (port : ℕ) (doc_root : Text) (n : ℕ) (prog : Program)
      → n < size_mod
      → listen o port doc_root n ≡ some prog
      → (a : Acceptor P S) × (prog.server.v_ ≡ a ∷ [])
        × (ids P S parser sr a.workers ≡ ids_from P S parser sr n 0)
        × AllAccepting a.workers
        × (prog.port ≡ port)
  unfolding listen run_server make_server run_acceptor
  listen-serves none port doc_root n prog fits h = absurd (none-ne-some prog h)
  listen-serves (some address) port doc_root n prog fits h =
      let a = make_acceptor P S parser sr n in
      let built : prog.server.v_ ≡ run_acceptor P S a ∷ [] = ground arith in
      (
        run_acceptor P S a,
        built,
        ids-run_workers a.workers ∙ make_acceptor-ids P S parser sr n fits,
        run_workers-AllAccepting a.workers,
        ground arith,
      )

  -- From five arguments, the last of which is no negative number, a server that starts has one
  -- acceptor, with workers numbered from 1 to that number, each of which waits for a connection;
  -- and it listens on the port given, modulo 2 ^ 16.
  pub main-serves :
      (name address port doc_root workers : Text) (prog : Program)
      → sys.atoi workers < 2 ^ 31
      → main (name ∷ address ∷ port ∷ doc_root ∷ workers ∷ []) ≡ some prog
      → (a : Acceptor P S) × (prog.server.v_ ≡ a ∷ [])
        × (ids P S parser sr a.workers ≡ ids_from P S parser sr (sys.atoi workers) 0)
        × AllAccepting a.workers
        × (prog.port ≡ sys.atoi port % 2 ^ 16)
  unfolding main to_port
  main-serves name address port doc_root workers prog small h =
      listen-serves (sys.make_address address) (to_port (sys.atoi port)) doc_root (sys.atoi workers)
        prog (omega arith) (rw (to_size-small (sys.atoi workers) small) at h)
