-- ===== src/Http/Context/RequestLine.antt =====
-- `processRequestLine` of http/HttpContext.cc and the text that it reads.
use matelib.Prelude.{
  ℕ, suc, ◌+◌, ◌≡◌, ◌≢◌, refl, ap, true, false, List, [], ◌∷◌, ◌++◌, some, arith, length, take,
  drop, length-append, ◌==◌, ne→==_false, ==_refl,
}
use matelib.Prelude.Slices.{bytes_ne, take-append_left, drop-append_right}
use matelib.Prelude.Text.{codes}
use matelib.Buffer.{crlf}
use matelib.Buffer.Search.{first_at-line, Avoids}
use matelib.Http.Request.{
  HttpRequest, Method, invalid, get, post, head, put, delete, Version, unknown, http10, http11,
  set_method, method_to_string, version_to_string,
}
use matelib.Http.Context.{find_byte, process_version, process_path, process_request_line}
use matelib.Http.Context.Bytes.{split_line}

-- The first line is what stands before the first line end.
pub split_line-line :
    (line rest : List ℕ) → Avoids 13 line → split_line (line ++ (crlf ++ rest)) ≡ some (line, rest)
unfolding split_line
split_line-line line rest h = rw (
  first_at-line line rest h,
  take-append_left line (crlf ++ rest) (length line) refl,
  drop-append_right line (crlf ++ rest) (length line + 2) 2 refl,
)

find_byte-append :
    (c : ℕ) (xs rest : List ℕ) → Avoids c xs → find_byte c (xs ++ (c ∷ rest)) ≡ length xs
unfolding find_byte
find_byte-append c [] rest h = rw (==_refl c)
find_byte-append c (x ∷ xs) rest h =
    rw (ne→==_false x c h.0) (ap suc (find_byte-append c xs rest h.1))

-- The word before the first `c`, and what stands behind it.
module _ (c : ℕ) (xs rest : List ℕ) (h : Avoids c xs) where
  pub byte_found : (find_byte c (xs ++ (c ∷ rest)) == length (xs ++ (c ∷ rest))) ≡ false
  byte_found =
      rw (find_byte-append c xs rest h)
        (ne→==_false _ _ (λ e. absurd (omega (arith, e, length-append xs (c ∷ rest)))))

  pub word_before : take (find_byte c (xs ++ (c ∷ rest))) (xs ++ (c ∷ rest)) ≡ xs
  word_before = take-append_left xs (c ∷ rest) _ (find_byte-append c xs rest h)

  pub rest_behind : drop (find_byte c (xs ++ (c ∷ rest)) + 1) (xs ++ (c ∷ rest)) ≡ rest
  rest_behind = drop-append_right xs (c ∷ rest) _ 1 (omega (arith, find_byte-append c xs rest h))

method_word-Avoids : (m : Method) → Avoids 32 (method_to_string m)
unfolding method_to_string
method_word-Avoids invalid = omega arith
method_word-Avoids get = omega arith
method_word-Avoids post = omega arith
method_word-Avoids head = omega arith
method_word-Avoids put = omega arith
method_word-Avoids delete = omega arith

set_method-word :
    (r : HttpRequest) (m : Method)
    → m ≢ invalid
    → set_method r (method_to_string m) ≡ (true, record r { method = m })
unfolding set_method method_to_string
set_method-word r invalid h = absurd (h refl)
set_method-word r get h = refl
set_method-word r post h = refl
set_method-word r head h = refl
set_method-word r put h = refl
set_method-word r delete h = refl

process_version-word :
    (r : HttpRequest) (v : Version)
    → v ≢ unknown
    → process_version r (version_to_string v) ≡ (true, record r { version = v })
unfolding process_version version_to_string
process_version-word r unknown h = absurd (h refl)
process_version-word r http10 h = refl
process_version-word r http11 h = refl

abbrev pub request_line : Method → List ℕ → Version → List ℕ
request_line m path v = method_to_string m ++ (32 ∷ (path ++ (32 ∷ version_to_string v)))

-- A request line written from a known method, a path without a space and a known version is
-- accepted by `process_request_line`, which sets exactly these three fields of the request.
pub process_request_line-lem :
    (r : HttpRequest) (m : Method) (path : List ℕ) (v : Version)
    → m ≢ invalid
    → Avoids 32 path
    → v ≢ unknown
    → process_request_line r (request_line m path v)
      ≡ (true, record r { method = m; path = path; version = v })
unfolding process_request_line process_path
process_request_line-lem r m path v hm hp hv =
    let w = method_word-Avoids m in
    rw (
      byte_found 32 (method_to_string m) (path ++ (32 ∷ version_to_string v)) w,
      word_before 32 (method_to_string m) (path ++ (32 ∷ version_to_string v)) w,
      rest_behind 32 (method_to_string m) (path ++ (32 ∷ version_to_string v)) w,
      set_method-word r m hm,
      byte_found 32 path (version_to_string v) hp,
      word_before 32 path (version_to_string v) hp,
      rest_behind 32 path (version_to_string v) hp,
      process_version-word (record r { method = m; path = path }) v hv,
    )

-- A request line that is refused: one word, a method that is not known, or no second space.
pub data IsBadLine : List ℕ → Type 0 where
  one_word : (word : List ℕ) → Avoids 32 word → IsBadLine word
  other_method :
      (word rest : List ℕ)
      → Avoids 32 word
      → ((m : Method) → m ≢ invalid → word ≢ method_to_string m)
      → IsBadLine (word ++ (32 ∷ rest))
  no_version :
      (m : Method) (path : List ℕ)
      → m ≢ invalid
      → Avoids 32 path
      → IsBadLine (method_to_string m ++ (32 ∷ path))

find_byte-Avoids : (c : ℕ) (xs : List ℕ) → Avoids c xs → find_byte c xs ≡ length xs
unfolding find_byte
find_byte-Avoids c [] h = refl
find_byte-Avoids c (x ∷ xs) h = rw (ne→==_false x c h.0) (ap suc (find_byte-Avoids c xs h.1))

set_method-other :
    (r : HttpRequest) (word : List ℕ)
    → ((m : Method) → m ≢ invalid → word ≢ method_to_string m)
    → (set_method r word).0 ≡ false
unfolding set_method method_to_string
set_method-other r word h = rw (
  bytes_ne word (codes "GET") (h get (λ e. cc)),
  bytes_ne word (codes "POST") (h post (λ e. cc)),
  bytes_ne word (codes "HEAD") (h head (λ e. cc)),
  bytes_ne word (codes "PUT") (h put (λ e. cc)),
  bytes_ne word (codes "DELETE") (h delete (λ e. cc)),
)

pub process_request_line-IsBadLine :
    (r : HttpRequest) {line : List ℕ} → IsBadLine line → (process_request_line r line).0 ≡ false
unfolding process_request_line process_path
process_request_line-IsBadLine r (one_word word h) =
    rw (find_byte-Avoids 32 word h, ==_refl (length word))
process_request_line-IsBadLine r (other_method word rest h other) =
    rw (byte_found 32 word rest h, word_before 32 word rest h, set_method-other r word other)
process_request_line-IsBadLine r (no_version m path known h) =
    let w = method_word-Avoids m in
    rw (
      byte_found 32 (method_to_string m) path w,
      word_before 32 (method_to_string m) path w,
      rest_behind 32 (method_to_string m) path w,
      set_method-word r m known,
      find_byte-Avoids 32 path h,
      ==_refl (length path),
    )
