-- ===== src/Http/Context.antt =====
-- http/HttpContext.h and http/HttpContext.cc: the state machine that parses a request.
pub mod Bytes
pub mod Refine
pub mod RequestLine
pub mod RoundTrip
use matelib.Prelude.{
  ℕ, zero, suc, ◌+◌, ◌-◌, Bool, true, false, not, ◌&&◌, List, [], ◌∷◌, Option, none, some, ◌>>=◌,
  ◌>>◌, ◌==◌, if◌then◌else◌, length, take, drop, get_or, sub_size,
}
use matelib.Prelude.Slices.{slice, bytes_eq}
use matelib.Prelude.Text.{codes}
use matelib.Buffer.{Buffer, readable_bytes, find_crlf, retrieve_until}
use matelib.Http.Request
use matelib.Http.Request.{HttpRequest, http10, http11, set_method, add_header}

pub data ParseState : Type 0 where
  expect_request_line expect_headers expect_body got_all : ParseState

pub record HttpContext : Type 0 where
  pub state : ParseState
  pub request : HttpRequest

-- The constructor.
abbrev pub start : HttpContext
start = record { state = expect_request_line; request = Request.fresh }

unfoldable pub reset : HttpContext → HttpContext
reset c = record c { state = expect_request_line; request = Request.reset c.request }

-- `std::find`: the index of the first `c`, or of the end.
unfoldable pub find_byte : ℕ → List ℕ → ℕ
find_byte c [] = 0
find_byte c (x ∷ xs) = if x == c then 0 else suc (find_byte c xs)

-- The version: exactly eight bytes, `HTTP/1.` and a digit 0 or 1.
process_version : HttpRequest → List ℕ → Bool × HttpRequest
process_version r word =
    if length word == 8 && bytes_eq (take 7 word) (codes "HTTP/1.")
    then (if get_or word 7 0 == b'1'
        then (true, record r { version = http11 })
        else if get_or word 7 0 == b'0'
        then (true, record r { version = http10 })
        else (false, r))
    else (false, r)

process_path : HttpRequest → List ℕ → Bool × HttpRequest
unfolding process_version find_byte
process_path r rest =
    let space = find_byte 32 rest in
    if space == length rest
    then (false, r)
    else process_version (record r { path = take space rest }) (drop (space + 1) rest)

-- `processRequestLine`. What was set before a failure stays set.
unfoldable pub process_request_line : HttpRequest → List ℕ → Bool × HttpRequest
unfolding process_path find_byte
process_request_line r line =
    let space = find_byte 32 line in
    if space == length line
    then (false, r)
    else (let (known, r') = set_method r (take space line) in
        if known then process_path r' (drop (space + 1) line) else (false, r'))

-- What one round of the loop does: go on, or leave the loop with `ok`.
pub data Round {ℓ} (B : Type ℓ) : Type ℓ where
  again : HttpContext → B → Round B
  stop : Bool → HttpContext → B → Round B

-- The bytes `[peek(), end)`.
abbrev before : Buffer → ℕ → List ℕ
before b end = slice b.buffer b.read_index (sub_size end b.read_index)

request_line_round : HttpContext → Buffer → ℕ → Option (Round Buffer)
request_line_round c b crlf =
    let (ok, r) = process_request_line c.request (before b crlf) in
    if ok
    then (do
      b' ← retrieve_until b (crlf + 2)
      some (again (record { state = expect_headers; request = r }) b'))
    else some (stop false (record c { request = r }) b)

-- A line without a colon ends the headers.
pub header_line : HttpContext → List ℕ → HttpContext
header_line c line =
    let colon = find_byte b':' line in
    if colon == length line
    then record c { state = expect_body }
    else record c { request = add_header c.request (take colon line) (drop (colon + 1) line) }

header_round : HttpContext → Buffer → ℕ → Option (Round Buffer)
unfolding header_line
header_round c b crlf = do
  b' ← retrieve_until b (crlf + 2)
  some (again (header_line c (before b crlf)) b')

round_at : HttpContext → Buffer → ParseState → Option (Round Buffer)
unfolding request_line_round header_round
round_at c b expect_request_line = elim (find_crlf b) [
  | none ↦ some (stop true c b)
  | some crlf ↦ request_line_round c b crlf
]
round_at c b expect_headers = elim (find_crlf b) [
  | none ↦ some (stop true c b)
  | some crlf ↦ header_round c b crlf
]
round_at c b expect_body = some (stop true (record c { state = got_all }) b)
round_at c b got_all = some (again c b)

-- One round of `while (hasMore)`.
pub parse_round : HttpContext → Buffer → Option (Round Buffer)
unfolding round_at
parse_round c b = round_at c b c.state

-- The loop on fuel. `none` is a failed assert, or that the fuel ran out.
pub parse_loop : ℕ → HttpContext → Buffer → Option (Bool × HttpContext × Buffer)
parse_loop zero c b = none
parse_loop (suc fuel) c b = elim (parse_round c b) [
  | none ↦ none
  | some (again c' b') ↦ parse_loop fuel c' b'
  | some (stop ok c' b') ↦ some (ok, c', b')
]

-- `parseRequest`. Each round but the last takes two bytes or more, so this fuel is enough.
pub parse_request : HttpContext → Buffer → Option (Bool × HttpContext × Buffer)
unfolding parse_loop
parse_request c b = parse_loop (suc (readable_bytes b)) c b
