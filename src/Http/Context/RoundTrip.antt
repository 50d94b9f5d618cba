-- ===== src/Http/Context/RoundTrip.antt =====
-- A whole request as it is sent, with its header lines, for `parseRequest` of
-- http/HttpContext.cc.
use matelib.Prelude.{
  ℕ, zero, suc, ◌+◌, ◌≤◌, ◌≡◌, ◌≢◌, refl, ap, ◌∙◌, true, List, [], ◌∷◌, ◌++◌, some, arith, length,
  length-append,
}
use matelib.Buffer.{crlf}
use matelib.Buffer.Search.{Avoids}
use matelib.Http.Request.{
  HttpRequest, Method, invalid, get, post, head, put, delete, Version, unknown, http10, http11,
  method_to_string, version_to_string, add_header,
}
use matelib.Http.Request.Headers.{add_headers}
use matelib.Http.Context.{
  HttpContext, expect_request_line, expect_headers, expect_body, got_all, again, find_byte,
  header_line,
}
use matelib.Http.Context.Bytes.{split_line, bytes_request_line, bytes_at, bytes_loop, parse_bytes}
use matelib.Http.Context.RequestLine.{
  split_line-line, request_line, process_request_line-lem, byte_found, word_before, rest_behind,
  request_line, process_request_line-lem,
}

abbrev pub header_text : List ℕ × List ℕ → List ℕ
header_text (field, value) = field ++ (b':' ∷ value)

-- A header that can be written on a line.
abbrev pub IsHeader : List ℕ × List ℕ → Type 0
IsHeader (field, value) = Avoids b':' field × Avoids 13 field × Avoids 13 value

abbrev pub AllHeaders : List (List ℕ × List ℕ) → Type 0
AllHeaders [] = Unit {0}
AllHeaders (h ∷ hs) = IsHeader h × AllHeaders hs

-- The header lines, an empty line, and what stands behind it.
abbrev pub header_lines : List (List ℕ × List ℕ) → List ℕ → List ℕ
header_lines [] rest = crlf ++ rest
header_lines (h ∷ hs) rest = header_text h ++ (crlf ++ header_lines hs rest)

pub Avoids-append : (c : ℕ) (xs ys : List ℕ) → Avoids c xs → Avoids c ys → Avoids c (xs ++ ys)
Avoids-append c [] ys h k = k
Avoids-append c (x ∷ xs) ys h k = (h.0, Avoids-append c xs ys h.1 k)

header_line-text :
    (c : HttpContext) (field value : List ℕ)
    → Avoids b':' field
    → header_line c (header_text (field, value))
      ≡ record c { request = add_header c.request field value }
unfolding header_line
header_line-text c field value h =
    rw (
      byte_found b':' field value h,
      word_before b':' field value h,
      rest_behind b':' field value h,
    )

-- One round of the loop that goes on.
loop-again :
    (fuel : ℕ) (c c' : HttpContext) (s s' : List ℕ)
    → bytes_at c s c.state ≡ again c' s'
    → bytes_loop (suc fuel) c s ≡ bytes_loop fuel c' s'
unfolding bytes_loop
loop-again fuel c c' s s' e = rw (e, bytes_loop)

headers_round :
    (r : HttpRequest) (s line rest : List ℕ)
    → split_line s ≡ some (line, rest)
    → let c : HttpContext = record { state = expect_headers; request = r } in
      bytes_at c s expect_headers ≡ again (header_line c line) rest
unfolding bytes_at
headers_round r s line rest e = rw (e, bytes_at)

header_line-empty : (c : HttpContext) → header_line c [] ≡ record c { state = expect_body }
unfolding header_line find_byte
header_line-empty c = refl

-- The headers are taken in one by one, and the empty line ends the request.
headers_parsed :
    (fuel : ℕ) (r : HttpRequest) (hs : List (List ℕ × List ℕ)) (rest : List ℕ)
    → AllHeaders hs
    → length hs + 2 ≤ fuel
    → bytes_loop fuel (record { state = expect_headers; request = r }) (header_lines hs rest)
      ≡ some (true, record { state = got_all; request = add_headers r hs }, rest)
headers_parsed zero r hs rest h le = absurd (omega arith)
headers_parsed (suc zero) r hs rest h le = absurd (omega arith)
headers_parsed (suc (suc fuel)) r [] rest h le =
    loop-again (suc fuel) (record { state = expect_headers; request = r })
      (record { state = expect_body; request = r }) (crlf ++ rest) rest
      (headers_round r (crlf ++ rest) [] rest (split_line-line [] rest tt)
        ∙ ap (λ c. again c rest) (header_line-empty _))
    ∙ body_parsed fuel r rest
  where
    body_parsed :
        (fuel : ℕ) (r : HttpRequest) (rest : List ℕ)
        → bytes_loop (suc fuel) (record { state = expect_body; request = r }) rest
          ≡ some (true, record { state = got_all; request = r }, rest)
    body_parsed fuel r rest = unfold bytes_loop bytes_at in refl
headers_parsed (suc (suc fuel)) r ((field, value) ∷ hs) rest h le =
    loop-again (suc fuel) (record { state = expect_headers; request = r })
      (record { state = expect_headers; request = add_header r field value }) _
      (header_lines hs rest)
      (headers_round r _ (header_text (field, value)) (header_lines hs rest) (
          split_line-line (header_text (field, value)) (header_lines hs rest)
            (Avoids-append 13 field (b':' ∷ value) h.0.1 ((λ e. absurd (omega (arith, e))), h.0.2)))
        ∙ ap (λ c. again c (header_lines hs rest)) (header_line-text _ field value h.0.0))
    ∙ headers_parsed (suc fuel) (add_header r field value) hs rest h.1 (omega arith)

-- A whole request as it is sent.
abbrev pub request_text : Method → List ℕ → Version → List (List ℕ × List ℕ) → List ℕ → List ℕ
request_text m path v hs rest = request_line m path v ++ (crlf ++ header_lines hs rest)

length-header_lines :
    (hs : List (List ℕ × List ℕ)) (rest : List ℕ) → length hs + 2 ≤ length (header_lines hs rest)
length-header_lines [] rest = omega arith
length-header_lines (h ∷ hs) rest = omega (
  arith,
  length-append (header_text h) (crlf ++ header_lines hs rest),
  length-header_lines hs rest,
)

method_word-line : (m : Method) → Avoids 13 (method_to_string m)
unfolding method_to_string
method_word-line invalid = omega arith
method_word-line get = omega arith
method_word-line post = omega arith
method_word-line head = omega arith
method_word-line put = omega arith
method_word-line delete = omega arith

version_word-line : (v : Version) → Avoids 13 (version_to_string v)
unfolding version_to_string
version_word-line unknown = omega arith
version_word-line http10 = omega arith
version_word-line http11 = omega arith

request_line-line :
    (m : Method) (path : List ℕ) (v : Version) → Avoids 13 path → Avoids 13 (request_line m path v)
request_line-line m path v h =
    Avoids-append 13 (method_to_string m) (32 ∷ (path ++ (32 ∷ version_to_string v)))
      (method_word-line m)
      (
        (λ e. absurd (omega (arith, e))),
        Avoids-append 13 path (32 ∷ version_to_string v) h
            ((λ e. absurd (omega (arith, e))), version_word-line v),
      )

-- Parsing a request that is written out gives the request, with every header in its map, and
-- leaves exactly the bytes behind it.
pub parse_bytes-request_text :
    (r : HttpRequest) (m : Method) (path : List ℕ) (v : Version) (hs : List (List ℕ × List ℕ))
    (rest : List ℕ)
    → m ≢ invalid
    → Avoids 32 path
    → Avoids 13 path
    → v ≢ unknown
    → AllHeaders hs
    → parse_bytes
        (record { state = expect_request_line; request = r })
        (request_text m path v hs rest)
      ≡ some (
        true,
        record {
          state = got_all;
          request = add_headers (record r { method = m; path = path; version = v }) hs;
        },
        rest,
      )
unfolding parse_bytes
parse_bytes-request_text r m path v hs rest hm hp hl hv hh =
    loop-again _ (record { state = expect_request_line; request = r })
      (record {
        state = expect_headers;
        request = record r { method = m; path = path; version = v };
      })
      (request_text m path v hs rest) (header_lines hs rest) first
    ∙ headers_parsed _ (record r { method = m; path = path; version = v }) hs rest hh enough
  where
    first :
        bytes_at
          (record { state = expect_request_line; request = r })
          (request_text m path v hs rest)
          expect_request_line
        ≡ again
            (record {
              state = expect_headers;
              request = record r { method = m; path = path; version = v };
            })
            (header_lines hs rest)
    first =
        unfold bytes_at bytes_request_line in
        rw (
          split_line-line (request_line m path v) (header_lines hs rest)
              (request_line-line m path v hl),
          bytes_at,
          process_request_line-lem r m path v hm hp hv,
        )

    enough : length hs + 2 ≤ length (request_text m path v hs rest)
    enough = omega (
      arith,
      length-append (request_line m path v) (crlf ++ header_lines hs rest),
      length-header_lines hs rest,
    )
