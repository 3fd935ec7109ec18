-- ===== src/Tests/Exchanging.antt =====
-- One end sends two bytes, which the other end reads one by one.
use http_io.Common.{ℕ, ◌≡◌, refl, false, arith, List, [], ◌∷◌}
use http_io.System.{add_size}
use http_io.Read
use http_io.Read.{Turn}
use http_io.Read.Header.{read_header_op, async_read_header}
use http_io.Read.Body.{read_body_op, begin_body, async_read}
use http_io.Write
use http_io.Write.Some.{write_some_op, async_write_some, deliver_some}
use http_io.Write.All
use http_io.Runs.{read_header}
use http_io.Exchange.{whole-IsMessage, async_read-async_write}
use http_io.Example.{numbers, two_bytes, two_bytes-IsLawful, bytes_left, bytes_left-IsLawful, fresh}
use http_io.Example.Pair.{has_length, has_length-IsPrefixFree, two_bytes-IsRecording}

abbrev first : Read.Event ℕ
first = Read.Event.arrival 0 (65 ∷ [])

abbrev second : Read.Event ℕ
second = Read.Event.arrival 0 (66 ∷ [])

abbrev body_turn : Turn numbers two_bytes
body_turn =
    begin_body numbers two_bytes false (read_header numbers two_bytes fresh (first ∷ [])).parser

async_read-async_write_example :
    ((Read.run numbers two_bytes
        (read_body_op numbers two_bytes false)
        body_turn
        (second ∷ [])).parser.input
      ≡ 65 ∷ 66 ∷ [])
    × (◌≡◌ {A = List ℕ} [] [])
unfolding Read.run Read.deliver read_header_op async_read_header read_body_op begin_body async_read
    add_size All.run All.deliver All.hand_on All.enter All.write_op All.async_write write_some_op
    async_write_some deliver_some
async_read-async_write_example =
    async_read-async_write numbers two_bytes bytes_left (has_length 2) two_bytes-IsLawful
      two_bytes-IsRecording bytes_left-IsLawful (65 ∷ 66 ∷ []) (Write.Event.written 0 1 ∷ [])
      (Write.Event.written 0 1) (refl, (0, 2, refl, refl)) (omega arith, (omega arith, tt))
      (whole-IsMessage (has_length 2) (has_length-IsPrefixFree 2) (65 ∷ 66 ∷ []) refl) fresh
      (first ∷ []) (second ∷ []) body_turn [] 0 1 refl refl refl refl refl
