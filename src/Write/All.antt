-- ===== src/Write/All.antt =====
-- detail::write_op and async_write of include/boost/http_io/impl/write.hpp.
pub mod Wire
pub mod Laws
pub mod Progress
use http_io.Common.{ℕ, Bool, true, false, List, [], ◌∷◌, ◌++◌, take, if◌then◌else◌}
use http_io.System.{ErrorCodes, add_size}
use http_io.Asio.{
  Action, post, initiate, complete, ended, assert_failed, Point, start, posted, suspended,
  terminated,
}
use http_io.Serializer.{Serializer, Buffers, flatten}
use http_io.Write.{Event, run_posted, written}
use http_io.Write.Some.{SomeTurn, async_write_some, deliver_some}

-- The members of the coroutine object that change.
pub record WriteOp : Type 0 where
  pub point : Point
  pub n_ : ℕ

-- async_write_some(dest_, sr_, std::move(self))
pub data WriteSome : Type 0 where
  write_some : WriteSome

-- What one call of `operator()` leaves; the serializer is only asked whether it is done.
pub record WriteTurn (C : Type 0) : Type 0 where
  pub op : WriteOp
  pub action : Action C WriteSome

module _ (E : ErrorCodes) (S : Serializer E) where
  open E use {Code, success, failed}

  abbrev pub write_more : ℕ → WriteTurn Code
  write_more n = record { op = record { point = suspended; n_ = n }; action = initiate write_some }

  abbrev pub write_upcall : ℕ → Code → WriteTurn Code
  write_upcall n ec = record { op = record { point = terminated; n_ = n }; action = complete ec n }

  resume : Point → ℕ → S.State → Code → ℕ → WriteTurn Code
  resume start n_ s ec n = write_more n_
  resume suspended n_ s ec n =
      let total = add_size n_ n in
      if failed ec
      then write_upcall total ec
      else if S.is_done s
      then write_upcall total ec
      else write_more total
  resume posted n_ s ec n = record { op = record { point = posted; n_ = n_ }; action = ended }
  resume terminated n_ s ec n = record {
    op = record { point = terminated; n_ = n_ };
    action = ended;
  }

  -- `operator()`. It suspends at one place only, so `posted` does not occur.
  unfoldable pub write_op : WriteOp → S.State → Code → ℕ → WriteTurn Code
  unfolding resume
  write_op op s ec n = resume op.point op.n_ s ec n

  -- The operation with the async_write_some that it waits for, which holds the serializer, and the
  -- bytes that the stream has taken.
  pub record Session : Type 0 where
    pub op : WriteOp
    pub action : Action Code WriteSome
    pub some_turn : SomeTurn E S
    pub wire : List ℕ

  -- A call of async_write_some makes its first call of write_some_op at once.
  unfoldable pub enter : WriteTurn Code → Action Code WriteSome → SomeTurn E S → List ℕ → Session
  enter t (initiate r) some_turn wire = record {
    op = t.op;
    action = t.action;
    some_turn = async_write_some E S some_turn.serializer;
    wire = wire;
  }
  enter t a some_turn wire = record {
    op = t.op;
    action = t.action;
    some_turn = some_turn;
    wire = wire;
  }

  -- The completion of async_write_some calls write_op.
  unfoldable pub hand_on : WriteOp → SomeTurn E S → Action Code Buffers → List ℕ → Session
  unfolding enter
  hand_on op some_turn (complete ec n) wire =
      let t = write_op op some_turn.serializer ec n in enter t t.action some_turn wire
  hand_on op some_turn a wire = record {
    op = op;
    action = initiate write_some;
    some_turn = some_turn;
    wire = wire;
  }

  -- What the stream takes of the buffers.
  abbrev pub taken : Action Code Buffers → Event Code → List ℕ
  taken (initiate bs) (written c k) = take k (flatten bs)
  taken a e = []

  unfoldable pub deliver : Session → Event Code → Session
  unfolding hand_on
  deliver w e = elim w.action [
    | initiate r ↦
        let some_turn = deliver_some E S w.some_turn.action w.some_turn e in
        hand_on w.op some_turn some_turn.action (w.wire ++ taken w.some_turn.action e)
    | _ ↦ w
  ]

  unfoldable pub run : Session → List (Event Code) → Session
  run w [] = w
  run w (e ∷ es) = run (deliver w e) es

  -- The composed operation is called at once, with the default arguments.
  unfoldable pub async_write : S.State → Session
  unfolding write_op
  async_write s =
      let t = write_op (record { point = start; n_ = 0 }) s success 0 in
      record { op = t.op; action = t.action; some_turn = async_write_some E S s; wire = [] }
