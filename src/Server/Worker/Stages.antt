-- ===== src/Server/Worker/Stages.antt =====
-- The three operations of the library that a worker waits for, as its stages.
use http_io.Common.{◌≡◌, refl, Bool, false}
use http_io.System.{ErrorCodes}
use http_io.Asio.Machine.{IsStage}
use http_io.Asio.{Action, post, initiate, complete, ended, assert_failed, is_completed}
use http_io.Parser.{Parser}
use http_io.Serializer.{Serializer}
use http_io.Read
use http_io.Read.{Turn, ReadSome}
use http_io.Read.Loop.{run-completed as read_completed}
use http_io.Read.Header.{read_header_op}
use http_io.Read.Body.{read_body_op}
use http_io.Write.All
use http_io.Write.All.{Session, WriteSome, async_write}
use http_io.Write.All.Progress.{run-completed as write_completed}
use http_io.Server.Request.{Libraries}
use http_io.Server.Worker.{
  Messages, Setup, read_event, write_event, reading_header, reading_body, writing, Worker,
  after_header, after_body, after_write, dispatch, on_event,
}

module _ {E : ErrorCodes} (P : Parser E) (S : Serializer E) where
  header_goes :
      (a : Action E.Code ReadSome) (t u : Turn E P) (w : Worker P S)
      → is_completed a ≡ false
      → after_header P S a t (record w { pending = reading_header u })
        ≡ record w { pending = reading_header t }
  unfolding after_header
  header_goes (complete c n) t u w h = cc
  header_goes (post c n) t u w h = refl
  header_goes (initiate r) t u w h = refl
  header_goes ended t u w h = refl
  header_goes assert_failed t u w h = refl

module _ {E : ErrorCodes} (P : Parser E) (S : Serializer E) (lib : Libraries E)
    (msgs : Messages P S) (setup : Setup) (b : Bool) where
  pub header-IsStage :
      IsStage
        (on_event P S lib msgs setup b)
        (λ (t : Turn E P). t.action)
        (λ t e. Read.deliver E P (read_header_op E P) t.action t e)
        (Read.run E P (read_header_op E P))
        read_event
        (λ t (w : Worker P S). record w { pending = reading_header t })
        (after_header P S)
  unfolding Read.run dispatch on_event
  header-IsStage = record {
    runs_nil = λ t. refl;
    runs_cons = λ t e es. refl;
    runs_completed = read_completed E P (read_header_op E P);
    goes = header_goes P S;
    steps = λ t e w. refl;
  }

  body_goes :
      (a : Action E.Code ReadSome) (t u : Turn E P) (w : Worker P S)
      → is_completed a ≡ false
      → after_body P S lib msgs setup b a t (record w { pending = reading_body u })
        ≡ record w { pending = reading_body t }
  unfolding after_body
  body_goes (complete c n) t u w h = cc
  body_goes (post c n) t u w h = refl
  body_goes (initiate r) t u w h = refl
  body_goes ended t u w h = refl
  body_goes assert_failed t u w h = refl

  pub body-IsStage :
      IsStage
        (on_event P S lib msgs setup b)
        (λ (t : Turn E P). t.action)
        (λ t e. Read.deliver E P (read_body_op E P false) t.action t e)
        (Read.run E P (read_body_op E P false))
        read_event
        (λ t (w : Worker P S). record w { pending = reading_body t })
        (after_body P S lib msgs setup b)
  unfolding Read.run dispatch on_event
  body-IsStage = record {
    runs_nil = λ t. refl;
    runs_cons = λ t e es. refl;
    runs_completed = read_completed E P (read_body_op E P false);
    goes = body_goes;
    steps = λ t e w. refl;
  }

  write_goes :
      (a : Action E.Code WriteSome) (s u : Session E S) (w : Worker P S)
      → is_completed a ≡ false
      → after_write P S lib msgs setup a s (record w { pending = writing u })
        ≡ record w { pending = writing s }
  unfolding after_write
  write_goes (complete c n) s u w h = cc
  write_goes (post c n) s u w h = refl
  write_goes (initiate r) s u w h = refl
  write_goes ended s u w h = refl
  write_goes assert_failed s u w h = refl

  pub write-IsStage :
      IsStage
        (on_event P S lib msgs setup b)
        (λ (s : Session E S). s.action)
        (All.deliver E S)
        (All.run E S)
        write_event
        (λ s (w : Worker P S). record w { pending = writing s })
        (after_write P S lib msgs setup)
  unfolding All.run dispatch on_event
  write-IsStage = record {
    runs_nil = λ s. refl;
    runs_cons = λ s e es. refl;
    runs_completed = write_completed E S;
    goes = write_goes;
    steps = λ s e w. refl;
  }
