-- ===== src/Http/Server.antt =====
-- http/HttpServer.cc: what a message does to the parser's context, the input buffer and the
-- connection. The user's handler of requests is a parameter.
pub mod Answers
use matelib.Prelude.{
  ℕ, ◌+◌, Bool, true, false, ◌||◌, List, [], ◌∷◌, ◌++◌, Option, none, some, ◌>>=◌, ◌>>◌,
  if◌then◌else◌,
}
use matelib.Prelude.Slices.{bytes_eq}
use matelib.Prelude.Text.{codes}
use matelib.Buffer.{Buffer, empty, crlf, peek, readable_bytes}
use matelib.Http.Request.{HttpRequest, Version, unknown, http10, http11, header}
use matelib.Http.Response.{HttpResponse, make, not_found, append_to_buffer}
use matelib.Http.Context
use matelib.Http.Context.{HttpContext, parse_request}

-- The calls on the connection, in order.
pub data Call : Type 0 where
  send : List ℕ → Call
  shutdown : Call

-- `detail::defaultHttpCallback`
unfoldable pub default_http_callback : HttpRequest → HttpResponse → HttpResponse
default_http_callback request response = record response {
  status_code = not_found;
  status_message = codes "Not Found";
  close_connection = true;
}

abbrev pub is_http10 : Version → Bool
is_http10 http10 = true
is_http10 _ = false

unfoldable pub wants_close : HttpRequest → Bool
wants_close request =
    bytes_eq (header request (codes "Connection")) (codes "close") || is_http10 request.version

abbrev pub bad_request_text : List ℕ
bad_request_text = codes "HTTP/1.1 400 Bad Request" ++ (crlf ++ crlf)

abbrev pub closing : Bool → List Call
closing true = shutdown ∷ []
closing false = []

module _ (http_callback : HttpRequest → HttpResponse → HttpResponse) where
  unfoldable pub respond : HttpRequest → Option (List Call × HttpResponse)
  respond request = do
    let response = http_callback request (make (wants_close request) request.version)
    out ← append_to_buffer response empty
    some (send (peek out (readable_bytes out)) ∷ [], response)

  -- `onMessage`. The context is that of the thread, shared by its connections.
  unfoldable pub on_message : HttpContext → Buffer → Option (List Call × HttpContext × Buffer)
  unfolding respond
  on_message c buf = do
    (ok, c', buf') ← parse_request c buf
    if ok
        then (do
          (calls, response) ← respond c'.request
          some (calls ++ closing response.close_connection, Context.reset c', buf'))
        else some (send bad_request_text ∷ (shutdown ∷ []), c', buf')
