-- ===== src/Server/Setup.antt =====
-- The construction of acceptor (example/server/acceptor.hpp) with its workers.
use mathlib.Core.List.{map-append, append-nil, append_assoc}
use http_io.Common.{
  ℕ, zero, suc, ◌+◌, ◌<◌, ◌≡◌, sym, ap, ◌∙◌, true, false, List, [], ◌∷◌, ◌++◌, map, Option, some,
  arith,
}
use http_io.System.{ErrorCodes, size_mod, add_size, add_size_exact}
use http_io.Parser.{Parser}
use http_io.Serializer.{Serializer}
use http_io.Server.Worker.{Worker, idle}
use http_io.Server.Array.{
  allocate, FixedArray, constructed, construct_more, fixed_array, range, unstored, stored,
}
use http_io.Server.Array.Lifetime.{range-fixed_array}
use http_io.Server.Lifecycle.{Acceptor}

-- `++id_`
unfoldable pub next_id : ℕ → ℕ
unfolding add_size
next_id id_ = add_size id_ 1

module _ {E : ErrorCodes} (P : Parser E) (S : Serializer E) (parser : P.State) (sr : S.State) where
  -- `worker::worker`, with the parser and the serializer that the context gives; the state is the
  -- acceptor's `id_`. It does not throw.
  pub make_worker : ℕ → Option (Worker P S × ℕ)
  unfolding next_id
  make_worker id_ = some (
    record {
      id_ = next_id id_;
      parser = parser;
      response = [];
      serializer = sr;
      calls = [];
      pending = idle;
    },
    next_id id_,
  )

  unfoldable pub make_acceptor : ℕ → Acceptor P S
  unfolding make_worker fixed_array range
  make_acceptor num_workers = record {
    workers = range (fixed_array make_worker num_workers 0);
    calls = [];
  }

  unfoldable pub ids_from : ℕ → ℕ → List ℕ
  ids_from zero id_ = []
  ids_from (suc n) id_ = suc id_ ∷ ids_from n (suc id_)

  abbrev pub ids : List (Worker P S) → List ℕ
  ids = map (λ w. w.id_)

  ids-snoc : (ws : List (Worker P S)) (w : Worker P S) → ids (ws ++ w ∷ []) ≡ ids ws ++ w.id_ ∷ []
  ids-snoc ws w = map-append (λ v. v.id_) ws (w ∷ [])

  ids-construct_more :
      (rounds : ℕ) (a : FixedArray ℕ (Worker P S))
      → a.state + rounds < size_mod
      → ids (construct_more make_worker rounds a).elements
        ≡ ids a.elements ++ ids_from rounds a.state
  unfolding construct_more make_worker constructed ids_from next_id
  ids-construct_more zero a h = sym (append-nil _)
  ids-construct_more (suc rounds) a h =
      let next : add_size a.state 1 ≡ suc a.state =
        add_size_exact a.state 1 (omega arith) ∙ omega arith in
      ids-construct_more rounds (constructed _ _ a) (rw next (omega arith))
      ∙ ap (λ l. l ++ ids_from rounds (add_size a.state 1)) (ids-snoc a.elements _)
      ∙ append_assoc (ids a.elements) _ _
      ∙ rw next

  -- The workers of a new acceptor are numbered from 1 on, in order, if their number fits into the
  -- counter.
  pub make_acceptor-ids :
      (num_workers : ℕ)
      → num_workers < size_mod
      → ids (make_acceptor num_workers).workers ≡ ids_from num_workers 0
  unfolding make_acceptor fixed_array unstored stored
  make_acceptor-ids num_workers h =
      let a : FixedArray ℕ (Worker P S) = record {
        is_stored = true;
        n_ = 0;
        elements = [];
        state = 0;
        threw = false;
        memory = allocate num_workers ∷ [];
      } in
      ap ids (range-fixed_array make_worker num_workers 0)
      ∙ ids-construct_more num_workers a (omega arith)
