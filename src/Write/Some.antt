-- ===== src/Write/Some.antt =====
-- detail::write_some_op and async_write_some of include/boost/http_io/impl/write.hpp.
pub mod Laws
use http_io.Common.{ℕ, Bool, true, false, List, [], ◌∷◌, if◌then◌else◌}
use http_io.System.{ErrorCodes}
use http_io.Asio.{
  Action, post, initiate, complete, ended, assert_failed, Point, start, posted, suspended,
  terminated,
}
use http_io.Serializer.{Serializer, Buffers, Prepared, buffers, error}
use http_io.Write.{Event, run_posted, written}

module _ (E : ErrorCodes) (S : Serializer E) where
  open E use {Code, success}

  -- What one call of `operator()` leaves. The coroutine has no members that change.
  pub record SomeTurn : Type 0 where
    pub point : Point
    pub serializer : S.State
    pub action : Action Code Buffers

  -- The label `upcall`: self.complete(ec, bytes_transferred)
  abbrev pub some_upcall : S.State → Code → ℕ → SomeTurn
  some_upcall s ec n = record { point = terminated; serializer = s; action = complete ec n }

  unfoldable pub prepared : Bool → S.State × Prepared Code → ℕ → SomeTurn
  prepared do_post (s, buffers bs) n = record {
    point = suspended;
    serializer = s;
    action = initiate bs;
  }
  prepared do_post (s, error ec) n =
      if do_post
      then record { point = posted; serializer = s; action = post ec n }
      else some_upcall s ec n

  -- `operator()(self, ec, bytes_transferred, do_post)`
  unfoldable pub write_some_op : Point → S.State → Code → ℕ → Bool → SomeTurn
  unfolding prepared
  write_some_op start s ec n do_post = prepared do_post (S.prepare s) n
  write_some_op posted s ec n do_post = some_upcall s ec n
  write_some_op suspended s ec n do_post = some_upcall (S.consume n s) ec n
  write_some_op terminated s ec n do_post = record {
    point = terminated;
    serializer = s;
    action = ended;
  }

  -- The composed operation is called at once, by `operator()(self)`.
  unfoldable pub async_write_some : S.State → SomeTurn
  unfolding write_some_op
  async_write_some s = write_some_op start s success 0 true

  -- An event that the operation does not wait for leaves it alone.
  unfoldable pub deliver_some : Action Code Buffers → SomeTurn → Event Code → SomeTurn
  deliver_some (post ec n) t run_posted = write_some_op t.point t.serializer ec n false
  deliver_some (post ec n) t (written c k) = t
  deliver_some (initiate bs) t run_posted = t
  deliver_some (initiate bs) t (written c k) = write_some_op t.point t.serializer c k false
  deliver_some (complete ec n) t e = t
  deliver_some ended t e = t
  deliver_some assert_failed t e = t
