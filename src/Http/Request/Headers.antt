-- ===== src/Http/Request/Headers.antt =====
-- The headers of http/HttpRequest.h: what `addHeader` makes of a value with spaces around it, and what
-- `header` finds.
use mathlib.Core.List.{reverse, reverse-cons, reverse-append, reverse-reverse}
use matelib.Prelude.{
  ℕ, zero, suc, ◌+◌, ◌≡◌, refl, sym, ap, ◌∙◌, inl, inr, false, List, [], ◌∷◌, ◌++◌, Option, none,
  some, map, if◌then◌else◌, replicate, replicate-append, append-nil, arith,
}
use matelib.Prelude.Slices.{bytes_eq, bytes_eq_refl, bytes_ne, bytes_eq_or_ne}
use matelib.Prelude.Text.{insert, find, find-insert_self, find-insert_ne}
use matelib.Http.Request.{HttpRequest, is_space, skip_spaces, trim, add_header, header}

-- A header as it is written: its field, and its value between spaces.
pub record Header : Type 0 where
  pub field : List ℕ
  pub before : ℕ
  pub value : List ℕ
  pub after : ℕ

abbrev pub padded : ℕ → List ℕ → ℕ → List ℕ
padded before value after = replicate before 32 ++ (value ++ replicate after 32)

abbrev pub written : Header → List ℕ × List ℕ
written h = (h.field, padded h.before h.value h.after)

-- The bytes do not begin with white space.
abbrev pub BeginsBare : List ℕ → Type 0
BeginsBare [] = Unit {0}
BeginsBare (x ∷ xs) = is_space x ≡ false

-- There is no white space at either end.
abbrev pub IsBare : List ℕ → Type 0
IsBare value = BeginsBare value × BeginsBare (reverse value)

skip_spaces-replicate : (n : ℕ) (xs : List ℕ) → skip_spaces (replicate n 32 ++ xs) ≡ skip_spaces xs
unfolding skip_spaces
skip_spaces-replicate zero xs = refl
skip_spaces-replicate (suc n) xs = skip_spaces-replicate n xs

skip_spaces-BeginsBare : (xs : List ℕ) → BeginsBare xs → skip_spaces xs ≡ xs
unfolding skip_spaces
skip_spaces-BeginsBare [] h = refl
skip_spaces-BeginsBare (x ∷ xs) h = rw h

reverse-replicate : (n : ℕ) → reverse {A = ℕ} (replicate n 32) ≡ replicate n 32
reverse-replicate zero = refl
reverse-replicate (suc n) =
    reverse-cons {A = ℕ} 32 (replicate n 32)
    ∙ ap (λ (t : List ℕ). t ++ (32 ∷ [])) (reverse-replicate n)
    ∙ sym (replicate-append {A = ℕ} n 1 32)
    ∙ ap (λ k. replicate {A = ℕ} k 32) {x = n + 1} {y = suc n} (omega arith)

-- The loops of `addHeader` take away exactly the spaces around a value.
trim-padded :
    (before : ℕ) (value : List ℕ) (after : ℕ)
    → IsBare value
    → trim (padded before value after) ≡ value
unfolding trim
trim-padded before [] after h =
    rw
      (
        skip_spaces-replicate before (replicate after 32),
        sym (append-nil (replicate {A = ℕ} after 32)),
        skip_spaces-replicate after [],
      )
      (unfold skip_spaces in refl)
trim-padded before (x ∷ xs) after (front, back) =
    rw
      (
        skip_spaces-replicate before (x ∷ (xs ++ replicate after 32)),
        skip_spaces-BeginsBare (x ∷ (xs ++ replicate after 32)) front,
        reverse-append (x ∷ xs) (replicate after 32),
        reverse-replicate after,
        skip_spaces-replicate after (reverse (x ∷ xs)),
        skip_spaces-BeginsBare (reverse (x ∷ xs)) back,
      )
      (reverse-reverse (x ∷ xs))

-- The last header of a field says its value, and `old` if there is none.
abbrev pub value_of : List Header → List ℕ → List ℕ → List ℕ
value_of [] field old = old
value_of (h ∷ hs) field old = value_of hs field (if bytes_eq h.field field then h.value else old)

abbrev pub AllBare : List Header → Type 0
AllBare [] = Unit {0}
AllBare (h ∷ hs) = IsBare h.value × AllBare hs

header_at :
    (r : HttpRequest) (field : List ℕ) (o : Option (List ℕ))
    → find field r.headers ≡ o
    → header r field ≡ (elim o [ none ↦ [] | some value ↦ value ])
unfolding header
header_at r field o e =
    ap (λ (p : Option (List ℕ)). elim p as (λ x. List ℕ) [ none ↦ [] | some value ↦ value ]) e

header-add_header :
    (r : HttpRequest) (h : Header) (field : List ℕ)
    → IsBare h.value
    → header (add_header r h.field (padded h.before h.value h.after)) field
      ≡ (if bytes_eq h.field field then h.value else header r field)
unfolding add_header
header-add_header r h field bare = elim (bytes_eq_or_ne h.field field) [
  | inl same ↦
      rw (same, trim-padded h.before h.value h.after bare, bytes_eq_refl field)
        (header_at (record r { headers = insert field h.value r.headers }) field (some h.value)
          (find-insert_self field h.value r.headers))
  | inr other ↦
      rw (trim-padded h.before h.value h.after bare, bytes_ne h.field field other)
        (header_at (record r { headers = insert h.field h.value r.headers }) field
            (find field r.headers) (find-insert_ne h.field field h.value r.headers other)
          ∙ sym (header_at r field (find field r.headers) refl))
]

abbrev pub add_headers : HttpRequest → List (List ℕ × List ℕ) → HttpRequest
add_headers r [] = r
add_headers r ((field, value) ∷ hs) = add_headers (add_header r field value) hs

-- Adding headers that are written with spaces around their values puts each value into the map, and
-- changes nothing else.
pub add_headers-written :
    (r : HttpRequest) (hs : List Header)
    → AllBare hs
    → let q = add_headers r (map written hs) in
      ((field : List ℕ) → header q field ≡ value_of hs field (header r field))
      × (q.method ≡ r.method)
      × (q.path ≡ r.path)
      × (q.version ≡ r.version)
      × (q.body ≡ r.body)
add_headers-written r [] bare = ((λ field. refl), refl, refl, refl, refl)
add_headers-written r (h ∷ hs) (bare, all) =
    let r' = add_header r h.field (padded h.before h.value h.after) in
    let (found, method, path, version, body) = add_headers-written r' hs all in
    (
      (λ field. found field ∙ ap (value_of hs field) (header-add_header r h field bare)),
      method ∙ (unfold add_header in refl),
      path ∙ (unfold add_header in refl),
      version ∙ (unfold add_header in refl),
      body ∙ (unfold add_header in refl),
    )
