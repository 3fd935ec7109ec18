-- ===== src/Tests/Reading.antt =====
-- The reads of include/boost/http_io/impl/read.hpp with a parser of two-byte messages.
use http_io.Asio.{is_completed}
use http_io.Common.{ℕ, ◌%◌, ◌≡◌, refl, true, false, List, [], ◌∷◌, arith}
use http_io.System.{size_mod, add_size}
use http_io.Asio.{Action, Point}
use http_io.Read.{read_some, Turn, upcall, Event, run_posted, arrival, deliver, run}
use http_io.Read.Loop.{received}
use http_io.Read.Header.{read_header_op, async_read_header}
use http_io.Read.Header.Laws.{async_read_header-got_header}
use http_io.Read.Header.Loop.{async_read_header_ends}
use http_io.Read.Header.Feed.{async_read_header_fails, async_read_header_succeeds}
use http_io.Read.Body.{read_body_op, async_read, async_read_some}
use http_io.Read.Body.Laws.{async_read-is_complete}
use http_io.Read.Body.Loop.{async_read_count, async_read_ends}
use http_io.Read.Body.Once.{async_read_some_once}
use http_io.Read.Body.{begin_body}
use http_io.Initiating.{Waits, initiating-Waits}
use http_io.Write.Some.{async_write_some}
use http_io.Write.All.{async_write}
use http_io.Read.Body.Repeat.{read_repeatedly, async_read-repeat}
use http_io.Example.{numbers, TwoBytes, fresh, two_bytes, two_bytes-IsLawful, bytes_left}

-- An empty read, a byte, another byte.
abbrev slowly : List (Event ℕ)
slowly = arrival 0 [] ∷ arrival 0 (65 ∷ []) ∷ arrival 0 (66 ∷ []) ∷ []

abbrev header_turn : List (Event ℕ) → Turn numbers two_bytes
header_turn es =
    run numbers two_bytes (read_header_op numbers two_bytes)
      (async_read_header numbers two_bytes fresh) es

abbrev got : TwoBytes
got = record { stored = []; input = 65 ∷ []; at_end = false }

abbrev whole : TwoBytes
whole = record { stored = []; input = 65 ∷ 66 ∷ []; at_end = false }

-- The header is there behind the first byte.
header_slowly : header_turn slowly ≡ upcall numbers two_bytes 1 got 0
unfolding run deliver read_header_op async_read_header add_size
header_slowly = refl

async_read_header-got_header_example : two_bytes.got_header (header_turn slowly).parser ≡ true
unfolding run deliver read_header_op async_read_header add_size
async_read_header-got_header_example =
    async_read_header-got_header numbers two_bytes two_bytes-IsLawful fresh slowly 0 1 refl refl

async_read_header_ends_example :
    is_completed (header_turn (arrival 0 [] ∷ arrival 1 [] ∷ [])).action ≡ true
async_read_header_ends_example =
    async_read_header_ends numbers two_bytes two_bytes-IsLawful fresh (arrival 0 [] ∷ []) [] 1 []
      refl (omega arith) (λ _. refl) refl

async_read_header_fails_example :
    header_turn (arrival 0 [] ∷ arrival 4 (65 ∷ []) ∷ run_posted ∷ [])
    ≡ upcall numbers two_bytes 1 got 4
async_read_header_fails_example =
    async_read_header_fails numbers two_bytes fresh ((0, []) ∷ []) 4 (65 ∷ []) (run_posted ∷ [])
      refl (refl, refl, refl, tt) refl refl

async_read_header_succeeds_example :
    header_turn (arrival 0 [] ∷ arrival 0 (65 ∷ []) ∷ []) ≡ upcall numbers two_bytes 1 got 0
async_read_header_succeeds_example =
    async_read_header_succeeds numbers two_bytes fresh ((0, []) ∷ []) 0 (65 ∷ []) [] refl
      (refl, refl, refl, tt) refl refl

-- The turn in which async_read leaves its first call, with a header and no body.
body : Turn numbers two_bytes
body = record {
  op = record { point = Point.suspended; total_bytes = 0 };
  parser = got;
  action = Action.initiate read_some;
}

async_read-is_complete_example :
    two_bytes.is_complete
      (run numbers two_bytes
        (read_body_op numbers two_bytes false)
        body
        (arrival 0 [] ∷ arrival 0 (66 ∷ []) ∷ [])).parser
    ≡ true
unfolding body run deliver read_body_op async_read add_size
async_read-is_complete_example =
    async_read-is_complete numbers two_bytes two_bytes-IsLawful got body
      (arrival 0 [] ∷ arrival 0 (66 ∷ []) ∷ []) 0 1 refl refl refl

async_read_count_example :
    1
    ≡ received numbers two_bytes
        (read_body_op numbers two_bytes false)
        body
        (arrival 0 [] ∷ arrival 0 (66 ∷ []) ∷ [])
      % size_mod
unfolding body run deliver read_body_op async_read add_size
async_read_count_example =
    async_read_count numbers two_bytes false got body (arrival 0 [] ∷ arrival 0 (66 ∷ []) ∷ []) 0 1
      refl refl

async_read_ends_example :
    is_completed
      (run numbers two_bytes
        (read_body_op numbers two_bytes false)
        body
        (arrival 0 [] ∷ arrival 1 [] ∷ [])).action
    ≡ true
unfolding body async_read
async_read_ends_example =
    async_read_ends numbers two_bytes two_bytes-IsLawful false got body (arrival 0 [] ∷ []) [] 1 []
      refl refl (omega arith) (λ _. refl) refl

async_read_some_once_example :
    let t = run numbers two_bytes (read_body_op numbers two_bytes true) body (arrival 0 [] ∷ []) in
    (is_completed t.action ≡ true)
    × (run numbers two_bytes
          (read_body_op numbers two_bytes true)
          body
          (arrival 0 [] ∷ arrival 0 (66 ∷ []) ∷ [])
        ≡ t)
unfolding body async_read_some
async_read_some_once_example =
    async_read_some_once numbers two_bytes two_bytes-IsLawful got body (arrival 0 (66 ∷ []) ∷ []) 0
      [] refl refl (λ h. cc)

posted_body : Turn numbers two_bytes
posted_body = record {
  op = record { point = Point.posted; total_bytes = 0 };
  parser = whole;
  action = Action.post 0 0;
}

async_read-repeat_example :
    run numbers two_bytes
      (read_body_op numbers two_bytes false)
      body
      (arrival 0 [] ∷ arrival 0 (66 ∷ []) ∷ [])
    ≡ read_repeatedly numbers two_bytes 0 got (arrival 0 [] ∷ arrival 0 (66 ∷ []) ∷ [])
unfolding body async_read
async_read-repeat_example =
    async_read-repeat numbers two_bytes two_bytes-IsLawful got body
      (arrival 0 [] ∷ arrival 0 (66 ∷ []) ∷ []) refl (λ _. refl, ((λ h. cc), tt)) refl

initiating-Waits_example :
    (let h = async_read_header numbers two_bytes got in Waits h.action h.op.point)
    × (let t = begin_body numbers two_bytes false whole in Waits t.action t.op.point)
    × (let u = async_write_some numbers bytes_left [] in Waits u.action u.point)
    × (let w = async_write numbers bytes_left [] in
        Waits w.action w.op.point × Waits w.some_turn.action w.some_turn.point)
unfolding async_read
initiating-Waits_example =
    initiating-Waits numbers two_bytes bytes_left false got whole
      (begin_body numbers two_bytes false whole) [] refl
