-- ===== src/Client/Request/Ending.antt =====
-- The loop over the body ends.
use http_io.Common.{ℕ, ◌≡◌, ◌⊎◌, inl, inr, refl, ◌∙◌, Bool, true, false, List, [], ◌∷◌, length}
use http_io.System.{ErrorCodes}
use http_io.Asio.{Action, initiate, complete, suspended}
use http_io.Parser.{Parser, IsLawful}
use http_io.Serializer.{Serializer, Buffers}
use http_io.Read
use http_io.Read.{Turn, ReadSome, ReadOp, read_some, deliver}
use http_io.Read.Loop.{IsEofEmpty}
use http_io.Read.Body.{read_body_op}
use http_io.Read.Body.Laws.{LeftBehind, deliver-LeftBehind}
use http_io.Client.Libraries
use http_io.Client.Libraries.{Urls, ResponseParser, Network}
use http_io.Client.Visit.{RequestCall}
use http_io.Client.Request.{
  system_error, read_event, Pending, reading_body, closing, threw, Client, print_body,
  start_shutdown, read_body, on_read_some, after_body, dispatch, on_event,
}

module _ {E : ErrorCodes} (P : Parser E) (S : Serializer E) (net : Network E) (R : ResponseParser P)
    (zlib : Bool) (start : List RequestCall → S.State) (urls : Urls)
    (B : Libraries.IsLawful P R) where
  complete-print_body :
      (bs : Buffers) (w : Client P S net)
      → P.is_complete (print_body P S net R zlib start bs w).parser ≡ P.is_complete w.parser
  unfolding print_body
  complete-print_body [] w = refl
  complete-print_body (b ∷ bs) w =
      complete-print_body bs _ ∙ B.complete-consume_body (length b) w.parser

  read_body-closing :
      (w : Client P S net)
      → P.is_complete w.parser ≡ true
      → ((read_body P S net R zlib start w).pending ≡ closing)
        × (P.is_complete (read_body P S net R zlib start w).parser ≡ true)
  unfolding read_body start_shutdown
  read_body-closing w h =
      let kept = complete-print_body (R.pull_body w.parser) w ∙ h in rw kept (refl, kept)

  -- The loop was left with the code that the read has completed with: by that error, thrown, or to
  -- shut the stream down behind a complete parser.
  abbrev pub HasLeft : E.Code → Client P S net → Type 0
  HasLeft c w =
      ((E.failed c ≡ true) × (w.pending ≡ threw (system_error c)))
      ⊎ ((E.failed c ≡ false) × (w.pending ≡ closing) × (P.is_complete w.parser ≡ true))

  on_read_some-HasLeft :
      (c : E.Code) (w : Client P S net)
      → LeftBehind E P c w.parser
      → HasLeft c (on_read_some P S net R zlib start c w)
  unfolding on_read_some
  on_read_some-HasLeft c w (inl (bad, other)) = inl (bad, rw (bad, other))
  on_read_some-HasLeft c w (inr (good, done)) =
      let (closes, whole) = read_body-closing w done in rw good (inr (refl, closes, whole))

  after_body-HasLeft :
      (a : Action E.Code ReadSome) (t : Turn E P) (w : Client P S net) (c : E.Code) (n : ℕ)
      → a ≡ complete c n
      → LeftBehind E P c t.parser
      → HasLeft c (after_body P S net R zlib start urls a t w)
  unfolding after_body
  after_body-HasLeft a t w c n h left =
      rw (h, after_body) (on_read_some-HasLeft c (record w { parser = t.parser }) left)

  dispatch-HasLeft :
      IsLawful E P
      → (p : Pending P S net) (w : Client P S net) (t : Turn E P) (c : E.Code) (bytes : List ℕ)
      → p ≡ reading_body t
      → t.action ≡ initiate read_some
      → t.op.point ≡ suspended
      → E.failed c ≡ true
      → E.is_need_more_input c ≡ false
      → IsEofEmpty E c bytes
      → (d : E.Code) × (n : ℕ) × ((deliver E P
            (read_body_op E P true)
            t.action
            t
            (Read.Event.arrival c bytes)).action
          ≡ complete d n)
        × HasLeft d
            (dispatch P S net R zlib start urls p (read_event (Read.Event.arrival c bytes)) w)
  unfolding dispatch
  dispatch-HasLeft L p w t c bytes h a at bad other q =
      let (d, n, done, left) = deliver-LeftBehind E P L t c bytes a at bad other q in
      (
        d,
        n,
        done,
        rw (h, dispatch)
            (after_body-HasLeft _
              (deliver E P (read_body_op E P true) t.action t (Read.Event.arrival c bytes)) w d n
              done left),
      )

  -- With a lawful parser and response parser, a read that fails, the end of the stream included,
  -- completes `async_read_some` and ends the loop over the body: the client throws the code that it
  -- has completed with, or that code is no error and the client shuts the stream down behind a
  -- complete parser. The failure is not need_more_input, which no stream gives, and a read that ends
  -- the stream brings no bytes.
  pub on_event-HasLeft :
      IsLawful E P
      → (w : Client P S net) (t : Turn E P) (c : E.Code) (bytes : List ℕ)
      → w.pending ≡ reading_body t
      → t.action ≡ initiate read_some
      → t.op.point ≡ suspended
      → E.failed c ≡ true
      → E.is_need_more_input c ≡ false
      → IsEofEmpty E c bytes
      → (d : E.Code) × (n : ℕ) × ((deliver E P
            (read_body_op E P true)
            t.action
            t
            (Read.Event.arrival c bytes)).action
          ≡ complete d n)
        × HasLeft d (on_event P S net R zlib start urls (read_event (Read.Event.arrival c bytes)) w)
  unfolding on_event
  on_event-HasLeft L w t c bytes h a at bad other q =
      dispatch-HasLeft L w.pending w t c bytes h a at bad other q
