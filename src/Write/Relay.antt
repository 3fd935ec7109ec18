-- ===== src/Write/Relay.antt =====
-- detail::relay_some_op and async_relay_some of include/boost/http_io/impl/write.hpp, which are
-- under #if 0, beside async_write_some.
use http_io.Common.{ℕ, ◌≡◌, refl, Bool, true, false, List, [], ◌∷◌, if◌then◌else◌}
use http_io.System.{ErrorCodes}
use http_io.Asio.{
  Action, post, initiate, complete, ended, assert_failed, Point, start, posted, suspended,
  terminated,
}
use http_io.Serializer.{Serializer, Buffers, Prepared, buffers, error}
use http_io.Write.{Event, run_posted, written}
use http_io.Write.Some.{
  SomeTurn, some_upcall, prepared, write_some_op, async_write_some, deliver_some,
}
use http_io.Write.Some.Laws.{run_some, run_some-upcall}

-- `is_complete` is `sr_.is_complete()`. The members `src_`, `cond_` and `bytes_read_` are not used.
module _ (E : ErrorCodes) (S : Serializer E) (is_complete : S.State → Bool) where
  open E use {Code, success}

  -- Behind `prepare`. The posted handler is called without arguments.
  relay_prepared : S.State × Prepared Code → SomeTurn E S
  relay_prepared (s, buffers bs) = record {
    point = suspended;
    serializer = s;
    action = initiate bs;
  }
  relay_prepared (s, error ec) = record { point = posted; serializer = s; action = post success 0 }

  -- `operator()`
  unfoldable pub relay_some_op : Point → S.State → Code → ℕ → SomeTurn E S
  unfolding relay_prepared
  relay_some_op start s ec n =
      if is_complete s
      then record { point = start; serializer = s; action = assert_failed }
      else relay_prepared (S.prepare s)
  relay_some_op posted s ec n = some_upcall E S s ec n
  relay_some_op suspended s ec n = some_upcall E S (S.consume n s) ec n
  relay_some_op terminated s ec n = record { point = terminated; serializer = s; action = ended }

  unfoldable pub async_relay_some : S.State → SomeTurn E S
  unfolding relay_some_op
  async_relay_some s = relay_some_op start s success 0

  unfoldable pub deliver_relay : Action Code Buffers → SomeTurn E S → Event Code → SomeTurn E S
  deliver_relay (post ec n) t run_posted = relay_some_op t.point t.serializer ec n
  deliver_relay (post ec n) t (written c k) = t
  deliver_relay (initiate bs) t run_posted = t
  deliver_relay (initiate bs) t (written c k) = relay_some_op t.point t.serializer c k
  deliver_relay (complete ec n) t e = t
  deliver_relay ended t e = t
  deliver_relay assert_failed t e = t

  unfoldable pub run_relay : SomeTurn E S → List (Event Code) → SomeTurn E S
  run_relay t [] = t
  run_relay t (e ∷ es) = run_relay (deliver_relay t.action t e) es

  -- An error that was posted, or reported, as success.
  abbrev pub forget : Action Code Buffers → Action Code Buffers
  forget (post c n) = post success n
  forget (complete c n) = complete success n
  forget a = a

  abbrev pub forget_error : Prepared Code → SomeTurn E S → SomeTurn E S
  forget_error (buffers bs) t = t
  forget_error (error c) t = record t { action = forget t.action }

  run_relay-upcall :
      (s : S.State) (c : Code) (n : ℕ) (es : List (Event Code))
      → run_relay (some_upcall E S s c n) es ≡ some_upcall E S s c n
  unfolding run_relay deliver_relay
  run_relay-upcall s c n [] = refl
  run_relay-upcall s c n (e ∷ es) = run_relay-upcall s c n es

  run_relay-prepared :
      (s : S.State) (r : Prepared Code) (es : List (Event Code))
      → run_relay (relay_prepared (s, r)) es
        ≡ forget_error r (run_some E S (prepared E S true (s, r) 0) es)
  unfolding relay_prepared run_relay deliver_relay relay_some_op run_some prepared deliver_some
      write_some_op
  run_relay-prepared s (buffers bs) [] = refl
  run_relay-prepared s (error c) [] = refl
  run_relay-prepared s (buffers bs) (run_posted ∷ es) = run_relay-prepared s (buffers bs) es
  run_relay-prepared s (error c) (run_posted ∷ es) =
      rw (run_relay-upcall s success 0 es, run_some-upcall E S s c 0 es)
  run_relay-prepared s (buffers bs) (written c k ∷ es) =
      rw (run_relay-upcall (S.consume k s) c k es, run_some-upcall E S (S.consume k s) c k es)
  run_relay-prepared s (error c) (written d k ∷ es) = run_relay-prepared s (error c) es

  -- From a serializer that is not complete, and over any events, `async_relay_some` would do what
  -- `async_write_some` does, but where `prepare` fails: then it would report success, with a count
  -- of 0, in place of the error.
  pub async_relay_some-async_write_some :
      (s : S.State) (es : List (Event Code))
      → is_complete s ≡ false
      → run_relay (async_relay_some s) es
        ≡ forget_error (S.prepare s).1 (run_some E S (async_write_some E S s) es)
  unfolding async_relay_some async_write_some
  async_relay_some-async_write_some s es more =
      rw more (run_relay-prepared (S.prepare s).0 (S.prepare s).1 es)
