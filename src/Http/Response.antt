-- ===== src/Http/Response.antt =====
-- http/HttpResponse.h
pub mod Printed
use matelib.Prelude.{
  ℕ, ◌+◌, Bool, true, false, List, [], ◌∷◌, ◌++◌, Option, none, some, ◌>>=◌, ◌>>◌, length, take,
}
use matelib.Prelude.Text.{codes, decimal, StringMap, insert}
use matelib.Buffer.{Buffer, append, crlf}
use matelib.Http.Request.{Version, unknown, http10, http11}

pub data StatusCode : Type 0 where
  invalid ok moved_permanently bad_request not_found : StatusCode

-- The version is that of the request, by a cast.
pub record HttpResponse : Type 0 where
  pub close_connection : Bool
  pub version : Version
  pub status_code : StatusCode
  pub status_message : List ℕ
  pub headers : StringMap
  pub body : List ℕ

-- The constructor.
unfoldable pub make : Bool → Version → HttpResponse
make close v = record {
  close_connection = close;
  version = v;
  status_code = invalid;
  status_message = [];
  headers = [];
  body = [];
}

unfoldable pub add_header : HttpResponse → List ℕ → List ℕ → HttpResponse
add_header r field value = record r { headers = insert field value r.headers }

unfoldable pub set_content_type : HttpResponse → List ℕ → HttpResponse
unfolding add_header
set_content_type r type = add_header r (codes "Content-Type") type

abbrev pub status_number : StatusCode → ℕ
status_number invalid = 0
status_number ok = 200
status_number moved_permanently = 301
status_number bad_request = 400
status_number not_found = 404

-- `kUnknown` is -1.
abbrev pub version_number : Version → List ℕ
version_number unknown = codes "-1"
version_number http10 = codes "0"
version_number http11 = codes "1"

-- `snprintf` into `char buf[32]` keeps 31 characters.
abbrev pub in_buf : List ℕ → List ℕ
in_buf = take 31

append_headers : StringMap → Buffer → Option Buffer
append_headers [] b = some b
append_headers ((field, value) ∷ headers) b = do
  b₁ ← append b field
  b₂ ← append b₁ (codes ": ")
  b₃ ← append b₂ value
  b₄ ← append b₃ crlf
  append_headers headers b₄

append_connection : HttpResponse → Bool → Buffer → Option Buffer
append_connection r true b = append b (codes "Connection: close" ++ crlf)
append_connection r false b = do
  b₁ ← append b (in_buf (codes "Content-Length: " ++ (decimal (length r.body) ++ crlf)))
  append b₁ (codes "Connection: Keep-Alive" ++ crlf)

pub append_to_buffer : HttpResponse → Buffer → Option Buffer
unfolding append_headers append_connection
append_to_buffer r b = do
  b₁ ← append b (
      in_buf (
        codes "HTTP/1."
        ++ (version_number r.version ++ (codes " " ++ decimal (status_number r.status_code)))))
  b₂ ← append b₁ r.status_message
  b₃ ← append b₂ crlf
  b₄ ← append_connection r r.close_connection b₃
  b₅ ← append_headers r.headers b₄
  b₆ ← append b₅ crlf
  append b₆ r.body
