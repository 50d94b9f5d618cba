-- ===== src/Http/Request.antt =====
-- http/HttpRequest.h
pub mod Headers
use mathlib.Core.List.{reverse}
use matelib.Prelude.{
  ℕ, Bool, true, false, ◌&&◌, ◌||◌, List, [], ◌∷◌, none, some, leb, ◌==◌, if◌then◌else◌,
}
use matelib.Prelude.Slices.{bytes_eq}
use matelib.Prelude.Text.{codes, StringMap, insert, find}

pub data Method : Type 0 where
  invalid get post head put delete : Method

pub data Version : Type 0 where
  unknown http10 http11 : Version

pub record HttpRequest : Type 0 where
  pub method : Method
  pub path : List ℕ
  pub version : Version
  pub headers : StringMap
  pub body : List ℕ

abbrev pub fresh : HttpRequest
fresh = record { method = invalid; path = []; version = unknown; headers = []; body = [] }

-- `reset()` gives each field its first value again.
unfoldable pub reset : HttpRequest → HttpRequest
reset r = record r { method = invalid; path = []; version = unknown; headers = []; body = [] }

unfoldable pub version_to_string : Version → List ℕ
version_to_string unknown = codes "UNKNOWN"
version_to_string http10 = codes "HTTP/1.0"
version_to_string http11 = codes "HTTP/1.1"

unfoldable pub method_to_string : Method → List ℕ
method_to_string invalid = codes "UNKNOWN"
method_to_string get = codes "GET"
method_to_string post = codes "POST"
method_to_string head = codes "HEAD"
method_to_string put = codes "PUT"
method_to_string delete = codes "DELETE"

abbrev method_of : List ℕ → Method
method_of word =
    if bytes_eq word (codes "GET")
    then get
    else if bytes_eq word (codes "POST")
    then post
    else if bytes_eq word (codes "HEAD")
    then head
    else if bytes_eq word (codes "PUT")
    then put
    else if bytes_eq word (codes "DELETE")
    then delete
    else invalid

abbrev is_valid : Method → Bool
is_valid invalid = false
is_valid _ = true

unfoldable pub set_method : HttpRequest → List ℕ → Bool × HttpRequest
set_method r word = (is_valid (method_of word), record r { method = method_of word })

-- `isspace` in the C locale.
abbrev pub is_space : ℕ → Bool
is_space c = c == 32 || leb 9 c && leb c 13

unfoldable pub skip_spaces : List ℕ → List ℕ
skip_spaces [] = []
skip_spaces (x ∷ xs) = if is_space x then skip_spaces xs else x ∷ xs

-- The two loops of `addHeader`: from the left, then from the right.
unfoldable pub trim : List ℕ → List ℕ
unfolding skip_spaces
trim xs = reverse (skip_spaces (reverse (skip_spaces xs)))

-- `field` is `[start, colon)`, and `value` is what stands behind the colon.
unfoldable pub add_header : HttpRequest → List ℕ → List ℕ → HttpRequest
add_header r field value = record r { headers = insert field (trim value) r.headers }

unfoldable pub header : HttpRequest → List ℕ → List ℕ
header r field = elim (find field r.headers) [ none ↦ [] | some value ↦ value ]
