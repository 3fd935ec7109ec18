-- ===== src/Tests/Writing.antt =====
-- The writes of include/boost/http_io/impl/write.hpp with a serializer of bytes.
use http_io.Asio.{is_completed}
use http_io.Common.{
  false, ℕ, ◌%◌, ◌≡◌, ◌⊎◌, refl, true, List, [], ◌∷◌, ◌++◌, arith, length, inl, inr,
}
use http_io.System.{size_mod, add_size}
use http_io.Serializer.{Serializer, error}
use http_io.Write.{Event, run_posted, written}
use http_io.Write.Some.{async_write_some, deliver_some, write_some_op, some_upcall}
use http_io.Write.Some.Laws.{run_some}
use http_io.Write.All.{Session, write_op, enter, hand_on, deliver, run, async_write}
use http_io.Write.All.Laws.{async_write-wire}
use http_io.Write.All.Progress.{async_write_ends}
use http_io.Write.Relay.{async_relay_some, run_relay, async_relay_some-async_write_some}
use http_io.Example.{numbers, bytes_left, bytes_left-IsLawful}

-- Three bytes, of which the stream takes two and one.
abbrev message : List ℕ
message = 1 ∷ 2 ∷ 3 ∷ []

abbrev in_parts : List (Event ℕ)
in_parts = written 0 2 ∷ written 0 1 ∷ []

abbrev session : Session numbers bytes_left
session = run numbers bytes_left (async_write numbers bytes_left message) in_parts

wire_in_parts : session.wire ≡ message
unfolding run deliver hand_on enter deliver_some write_some_op write_op async_write_some async_write
wire_in_parts = refl

async_write-wire_example :
    (3 ≡ length session.wire % size_mod)
    × (session.wire ++ session.some_turn.serializer ≡ message)
    × ((numbers.failed 0 ≡ true) ⊎ (session.wire ≡ message))
unfolding run deliver hand_on enter deliver_some write_some_op write_op async_write_some async_write
    add_size
async_write-wire_example =
    async_write-wire numbers bytes_left bytes_left-IsLawful message in_parts 0 3 (omega arith) refl

async_write_ends_example :
    is_completed
      (run numbers bytes_left
        (async_write numbers bytes_left message)
        (written 0 1 ∷ written 0 1 ∷ written 4 0 ∷ [])).action
    ≡ true
unfolding run deliver hand_on enter deliver_some write_some_op write_op async_write_some async_write
    add_size
async_write_ends_example =
    async_write_ends numbers bytes_left bytes_left-IsLawful (λ s. (s ∷ [], refl)) message
      (written 0 1 ∷ written 0 1 ∷ written 4 0 ∷ []) (omega arith)
      (inr (omega arith), (inr (omega arith), (inl refl, tt))) (omega arith) (omega arith)

-- A serializer that cannot prepare anything.
abbrev broken : Serializer numbers
broken = record { State = ℕ; prepare = λ s. (s, error 4); consume = λ n s. s; is_done = λ s. true }

async_relay_some-async_write_some_example :
    run_relay numbers broken
      (λ s. false)
      (async_relay_some numbers broken (λ s. false) 0)
      (written 0 3 ∷ run_posted ∷ [])
    ≡ some_upcall numbers broken 0 0 0
unfolding run_some deliver_some write_some_op async_write_some
async_relay_some-async_write_some_example =
    async_relay_some-async_write_some numbers broken (λ s. false) 0 (written 0 3 ∷ run_posted ∷ [])
      refl
