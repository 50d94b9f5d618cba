-- ===== src/Http/Server/Answers.antt =====
-- What a client gets for a message from `onMessage` of http/HttpServer.cc.
use matelib.Prelude.{
  ℕ, suc, ◌≡◌, ◌≢◌, Bool, true, false, List, [], ◌∷◌, ◌++◌, none, some, arith, length,
}
use matelib.Prelude.Text.{codes}
use matelib.Buffer.{Buffer, crlf}
use matelib.Buffer.Contents.{Holds, peek_all-Holds}
use matelib.Buffer.Search.{first_at, Avoids}
use matelib.Buffer.Whole.{empty-Holds}
use matelib.Http.Request.{HttpRequest}
use matelib.Http.Request
use matelib.Http.Response.{HttpResponse, make}
use matelib.Http.Response.Printed.{printed, append_to_buffer-Appends}
use matelib.Http.Context
use matelib.Http.Context.{
  HttpContext, ParseState, expect_request_line, got_all, parse_request, stop, process_request_line,
}
use matelib.Http.Context.Bytes.{
  parse_bytes, bytes_loop, bytes_at, bytes_loop-refused, bytes_loop-total, split_line,
  bytes_request_line,
}
use matelib.Http.Context.RequestLine.{split_line-line, IsBadLine, process_request_line-IsBadLine}
use matelib.Http.Context.Refine.{MatchesResult, parse_request-Matches}
use matelib.Http.Server.{
  Call, send, shutdown, wants_close, bad_request_text, respond, closing, on_message,
}

module _ (http_callback : HttpRequest → HttpResponse → HttpResponse) where
  abbrev pub response_to : HttpRequest → HttpResponse
  response_to r = http_callback r (make (wants_close r) r.version)

  -- The calls for a request: its response, and a shutdown if the response asks for it.
  abbrev pub answer : HttpRequest → List Call
  answer r = send (printed (response_to r)) ∷ closing (response_to r).close_connection

  respond-printed :
      (r : HttpRequest)
      → respond http_callback r ≡ some (send (printed (response_to r)) ∷ [], response_to r)
  unfolding respond
  respond-printed r =
      let (b, e, h) = append_to_buffer-Appends (response_to r) empty-Holds in
      rw (e, peek_all-Holds h)

  -- A message whose bytes parse is answered by the handler's response to the parsed request, the
  -- context is reset and the bytes behind the request stay in the buffer.
  pub on_message-accepted :
      {buf : Buffer} {s : List ℕ} (c c' : HttpContext) (s' : List ℕ)
      → Holds buf s
      → parse_bytes c s ≡ some (true, c', s')
      → (buf' : Buffer) × (on_message http_callback c buf
          ≡ some (answer c'.request, Context.reset c', buf'))
        × Holds buf' s'
  unfolding on_message
  on_message-accepted {buf} {s} c c' s' h e =
      let m : MatchesResult (some (true, c', s')) (parse_request c buf) =
        rw e at (parse_request-Matches c h) in
      (m.0, rw (m.1, respond-printed c'.request), m.2)

  -- A message whose bytes the parser refuses is answered by the text of a bad request, and the context
  -- stays as the parser left it.
  pub on_message-stopped :
      {buf : Buffer} {s : List ℕ} (c c' : HttpContext) (s' : List ℕ)
      → Holds buf s
      → parse_bytes c s ≡ some (false, c', s')
      → (buf' : Buffer) × (on_message http_callback c buf
          ≡ some (send bad_request_text ∷ (shutdown ∷ []), c', buf'))
        × Holds buf' s'
  unfolding on_message
  on_message-stopped {buf} {s} c c' s' h e =
      let m : MatchesResult (some (false, c', s')) (parse_request c buf) =
        rw e at (parse_request-Matches c h) in
      (m.0, rw m.1, m.2)

  -- Whatever bytes the input buffer holds and whatever the user's handler answers,
  -- `on_message` returns, with no assert failing, for every context that is not in the state
  -- got_all; the context that it leaves is again not in that state, and the buffer is well
  -- formed again.
  pub on_message-total :
      {buf : Buffer} {s : List ℕ} (c : HttpContext)
      → Holds buf s
      → c.state ≢ got_all
      → (calls : List Call) × (c' : HttpContext) × (buf' : Buffer) × (s' : List ℕ) × (on_message
            http_callback c buf
          ≡ some (calls, c', buf'))
        × Holds buf' s'
        × (c'.state ≢ got_all)
  unfolding parse_bytes
  on_message-total {buf} {s} c h n =
      let (r, e) = bytes_loop-total (suc (length s)) c s n (omega arith) in go r.0 r.1 r.2 e
    where
      go :
          (ok : Bool) (c' : HttpContext) (s' : List ℕ)
          → bytes_loop (suc (length s)) c s ≡ some (ok, c', s')
          → (calls : List Call) × (d : HttpContext) × (buf' : Buffer) × (t : List ℕ) × (on_message
                http_callback c buf
              ≡ some (calls, d, buf'))
            × Holds buf' t
            × (d.state ≢ got_all)
      go true c' s' e =
          let (buf', q, h') = on_message-accepted c c' s' h e in
          (answer c'.request, Context.reset c', buf', s', q, h', unfold Context.reset in λ g. cc)
      go false c' s' e =
          let (buf', q, h') = on_message-stopped c c' s' h e in
          (
            send bad_request_text ∷ (shutdown ∷ []),
            c',
            buf',
            s',
            q,
            h',
            λ g. cc (bytes_loop-refused (suc (length s)) c c' s s' e),
          )

  -- The unread bytes of a well-formed buffer are a line without a carriage return, its end and
  -- any bytes, the context waits for a request line, and the line is a single word, or begins
  -- with a word that is no known method, or is a known method with no second space behind it:
  -- whatever the user's handler is, `on_message` sends `HTTP/1.1 400 Bad Request` with an
  -- empty line, and nothing else, and shuts down; the context goes on waiting for a request
  -- line, and all bytes, the refused line too, stay in the buffer.
  pub on_message-refused :
      {buf : Buffer} {line : List ℕ} (r : HttpRequest) (rest : List ℕ)
      → Holds buf (line ++ (crlf ++ rest))
      → Avoids 13 line
      → IsBadLine line
      → (r' : HttpRequest) × (buf' : Buffer) × (on_message http_callback
            (record { state = expect_request_line; request = r })
            buf
          ≡ some (
            send (codes "HTTP/1.1 400 Bad Request\r\n\r\n") ∷ (shutdown ∷ []),
            record { state = expect_request_line; request = r' },
            buf',
          ))
        × Holds buf' (line ++ (crlf ++ rest))
  on_message-refused {buf} {line} r rest h one bad =
      let s = line ++ (crlf ++ rest) in
      let r' = (process_request_line r line).1 in
      let refused : parse_bytes (record { state = expect_request_line; request = r }) s
          ≡ some (false, record { state = expect_request_line; request = r' }, s) =
        unfold parse_bytes bytes_at bytes_request_line in
        rw (
          split_line-line line rest one,
          bytes_loop,
          bytes_at,
          process_request_line-IsBadLine r bad,
        ) in
      let (buf', same, left) = on_message-stopped _ _ s h refused in (r', buf', same, left)

  -- The fault of `on_message`: with a context that waits for a request line, bytes in which no
  -- line end stands yet are answered as if they were the request that the context happens to
  -- hold, the context is reset, and the bytes stay in the buffer.
  pub unfinished_answered :
      {buf : Buffer} {s : List ℕ} (r : HttpRequest)
      → Holds buf s
      → first_at crlf s ≡ none
      → (buf' : Buffer) × (on_message http_callback
            (record { state = expect_request_line; request = r })
            buf
          ≡ some
              (answer r, Context.reset (record { state = expect_request_line; request = r }), buf'))
        × Holds buf' s
  unfolding parse_bytes bytes_at
  unfinished_answered {buf} {s} r h none_yet =
      on_message-accepted _ _ s h (unfold split_line in rw (none_yet, bytes_loop, bytes_at))
