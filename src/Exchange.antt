-- ===== src/Exchange.antt =====
-- What one end of a connection sends with async_write is what the other end reads with
-- async_read_header and async_read.
use mathlib.Core.List.{append_assoc, append-nil}
use http_io.Common.{ℕ, ◌≡◌, sym, ap, ◌∙◌, Bool, true, false, List, [], ◌∷◌, ◌++◌}
use http_io.System.{ErrorCodes}
use http_io.Asio.{complete}
use http_io.Asio.Machine.{Succeeds}
use http_io.Parser.{Parser, IsLawful, IsRecording}
use http_io.Serializer
use http_io.Serializer.{Serializer}
use http_io.Read
use http_io.Read.{Turn}
use http_io.Read.Input.{heard}
use http_io.Read.Header.Input.{read_header-hears}
use http_io.Read.Body.{started, read_body_op, async_read}
use http_io.Read.Body.Input.{read_body-hears}
use http_io.Read.Body.Laws.{async_body-started, async_read-is_complete}
use http_io.Write
use http_io.Write.All.{async_write}
use http_io.Write.All.Laws.{AllWithin}
use http_io.Framing.{IsPrefixFree}
use http_io.Runs.{read_header, heard_header, write, write-whole}

-- A whole message, no proper beginning of which is one.
abbrev pub IsMessage : (List ℕ → Bool) → List ℕ → Type 0
IsMessage is_whole s =
    (is_whole s ≡ true)
    × ((message rest : List ℕ) → s ≡ message ++ rest → is_whole message ≡ true → rest ≡ [])

-- In a prefix-free language every whole message is one.
pub whole-IsMessage :
    (is_whole : List ℕ → Bool)
    → IsPrefixFree is_whole
    → (s : List ℕ) → is_whole s ≡ true
    → IsMessage is_whole s
whole-IsMessage is_whole free s whole =
    (whole, λ message rest h first. free message rest first (rw h at whole))

append-ends : (xs ys : List ℕ) → xs ++ ys ≡ [] → ys ≡ []
append-ends [] ys h = h
append-ends (x ∷ xs) ys h = cc

-- All of a message is needed to have a whole one.
pub message_needed :
    (is_whole : List ℕ → Bool) (s message rest later : List ℕ)
    → IsMessage is_whole s
    → is_whole message ≡ true
    → message ++ rest ++ later ≡ s
    → (message ++ rest ≡ s) × (later ≡ [])
message_needed is_whole s message rest later (_, minimal) whole sent =
    let none_left =
      minimal message (rest ++ later) (sym sent ∙ append_assoc message rest later) whole in
    let none_later = append-ends rest later none_left in
    (
      sym (append-nil (message ++ rest)) ∙ ap (λ l. message ++ rest ++ l) (sym none_later) ∙ sent,
      none_later,
    )

module _ (E : ErrorCodes) (P : Parser E) (S : Serializer E) where
  -- With a lawful serializer, a stream that takes no more than it is offered, and a lawful parser
  -- that has no input at first, keeps the bytes committed to it, and is complete only when they
  -- start with a whole message: when `async_write` of a message, no proper beginning of which is
  -- a whole one, has succeeded, and the other end has read, with `async_read_header` and then
  -- `async_read`, in whatever pieces, a first part of what was put on the wire, and `async_read`
  -- has completed without an error, then the parser's input is the message, and nothing of the
  -- wire is left.
  pub async_read-async_write :
      (is_whole : List ℕ → Bool)
      → IsLawful E P
      → (I : IsRecording P is_whole) (L : Serializer.IsLawful E S) (s : S.State)
      → (ws : List (Write.Event E.Code)) (u : Write.Event E.Code)
      → Succeeds E (λ es. (write E S s es).action) ws u
      → AllWithin E S (async_write E S s) (ws ++ u ∷ [])
      → IsMessage is_whole (L.remaining s)
      → (p : P.State) (hs bs : List (Read.Event E.Code)) (t : Turn E P) (later : List ℕ)
      → (c : E.Code) (n : ℕ) → I.input p ≡ []
      → async_read E P (read_header E P p hs).parser ≡ started t
      → (Read.run E P (read_body_op E P false) t bs).action ≡ complete c n
      → E.failed c ≡ false
      → heard_header E P p hs ++ heard E P (read_body_op E P false) t bs ++ later
        ≡ (write E S s (ws ++ u ∷ [])).wire
      → (I.input (Read.run E P (read_body_op E P false) t bs).parser ≡ L.remaining s) × (later ≡ [])
  async_read-async_write is_whole lawful I L s ws u sends within message p hs bs t later c n empty
        begun done ok wire =
      let q = (read_header E P p hs).parser in
      let r = (Read.run E P (read_body_op E P false) t bs).parser in
      let heard_body = heard E P (read_body_op E P false) t bs in
      let started_t = async_body-started E P false q t begun in
      let hears : I.input r ≡ heard_header E P p hs ++ heard_body =
        rw started_t (read_body-hears E P is_whole I false q bs)
        ∙ ap (λ l. l ++ heard_body)
            (read_header-hears E P is_whole I p hs ∙ ap (λ l. l ++ heard_header E P p hs) empty) in
      let (m, rest, starts, whole) =
        I.whole_of_complete r (async_read-is_complete E P lawful q t bs c n begun done ok) in
      let (all, over) = message_needed is_whole (L.remaining s) m rest later message whole (
        ap (λ l. l ++ later) (sym starts ∙ hears) ∙ wire ∙ write-whole E S L s ws u sends within) in
      (starts ∙ all, over)
