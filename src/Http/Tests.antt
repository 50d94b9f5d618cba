-- ===== src/Http/Tests.antt =====
-- The theorems on requests and responses at small ones.
use matelib.Prelude.{
  ℕ, ◌+◌, ◌≡◌, ◌≢◌, refl, true, List, [], ◌∷◌, ◌++◌, some, arith, length, map, replicate,
}
use matelib.Prelude.Text.{codes}
use matelib.Buffer.{Buffer, empty}
use matelib.Buffer.Search.{first_at}
use matelib.Buffer.Contents.{Holds}
use matelib.Buffer.Whole.{empty-Holds}
use matelib.Http.Request.{HttpRequest, fresh, get, http11}
use matelib.Http.Request.Headers.{Header, written}
use matelib.Http.Response.{make, append_to_buffer}
use matelib.Http.Response.Printed.{printed, append_to_buffer-Appends}
use matelib.Http.Context
use matelib.Http.Context.{
  HttpContext, expect_request_line, got_all, start, find_byte, process_request_line, parse_request,
}
use matelib.Http.Context.Bytes.{parse_bytes}
use matelib.Http.Context.RequestLine.{one_word}
use matelib.Http.Context.Refine.{MatchesResult, parse_request-Matches}
use matelib.Http.Context.RoundTrip.{request_text}
use matelib.Http.Server.{send, shutdown, Call, default_http_callback, on_message}
use matelib.Http.Server.Answers.{answer, on_message-refused, on_message-total, unfinished_answered}

-- `GET / HTTP/1.1` with one header, and one byte of the next request.
abbrev host : Header
host = record { field = codes "Host"; before = 1; value = codes "a"; after = 0 }

abbrev sent : List ℕ
sent = request_text get (codes "/") http11 (map written (host ∷ [])) (codes "G")

abbrev received : Buffer
received = record {
  buffer = replicate 8 0 ++ (sent ++ []);
  read_index = 8;
  write_index = 8 + length sent;
}

received-Holds : Holds received sent
received-Holds = record {
  pre = replicate 8 0;
  post = [];
  layout = refl;
  at_read = refl;
  at_write = refl;
  headroom = omega arith;
}

on_message-total_example :
    (calls : List Call) × (c' : HttpContext) × (buf' : Buffer) × (s' : List ℕ) × (on_message
        default_http_callback start received
      ≡ some (calls, c', buf'))
    × Holds buf' s'
    × (c'.state ≢ got_all)
on_message-total_example = on_message-total default_http_callback start received-Holds (λ e. cc)

unfinished_answered_example :
    (buf' : Buffer) × (on_message default_http_callback start empty
      ≡ some (answer default_http_callback fresh, Context.reset start, buf'))
    × Holds buf' []
unfolding first_at
unfinished_answered_example = unfinished_answered default_http_callback fresh empty-Holds refl

parse_request-Matches_example :
    MatchesResult (parse_bytes start sent) (parse_request start received)
parse_request-Matches_example = parse_request-Matches start received-Holds

append_to_buffer-Appends_example :
    (b' : Buffer) × (append_to_buffer (make true http11) empty ≡ some b')
    × Holds b' (printed (make true http11))
append_to_buffer-Appends_example = append_to_buffer-Appends (make true http11) empty-Holds

-- A request line with no space in it.
abbrev bad_line : Buffer
bad_line = record {
  buffer = replicate 8 0 ++ (codes "X\r\n" ++ []);
  read_index = 8;
  write_index = 11;
}

bad_line-Holds : Holds bad_line (codes "X\r\n")
bad_line-Holds = record {
  pre = replicate 8 0;
  post = [];
  layout = refl;
  at_read = refl;
  at_write = refl;
  headroom = omega arith;
}

on_message-refused_example :
    (r' : HttpRequest) × (buf' : Buffer) × (on_message default_http_callback start bad_line
      ≡ some (
        send (codes "HTTP/1.1 400 Bad Request\r\n\r\n") ∷ (shutdown ∷ []),
        record { state = expect_request_line; request = r' },
        buf',
      ))
    × Holds buf' (codes "X\r\n")
on_message-refused_example =
    on_message-refused default_http_callback fresh [] bad_line-Holds (omega arith)
      (one_word (codes "X") (omega arith))
