-- ===== src/Http/Context/Bytes.antt =====
-- The parser of http/HttpContext.cc over a sequence of bytes, with no buffer.
use matelib.Prelude.{
  ℕ, zero, suc, ◌+◌, ◌<◌, ◌≡◌, ◌≢◌, refl, sym, ◌∙◌, Bool, true, false, List, Option, none, some,
  arith, if◌then◌else◌, length, take, drop, length-drop,
}
use matelib.Buffer.{crlf}
use matelib.Buffer.Search.{first_at, first_at-lt}
use matelib.Http.Request.{HttpRequest}
use matelib.Http.Context.{
  HttpContext, ParseState, expect_request_line, expect_headers, expect_body, got_all, Round, again,
  stop, process_request_line, header_line,
}

-- The first line, and what stands behind its end.
abbrev pub cut_at : List ℕ → Option ℕ → Option (List ℕ × List ℕ)
cut_at s none = none
cut_at s (some i) = some (take i s, drop (i + 2) s)

unfoldable pub split_line : List ℕ → Option (List ℕ × List ℕ)
split_line s = cut_at s (first_at crlf s)

unfoldable pub bytes_request_line : HttpContext → List ℕ → List ℕ → List ℕ → Round (List ℕ)
bytes_request_line c s line rest =
    let (ok, r) = process_request_line c.request line in
    if ok
    then again (record { state = expect_headers; request = r }) rest
    else stop false (record c { request = r }) s

unfoldable pub bytes_at : HttpContext → List ℕ → ParseState → Round (List ℕ)
unfolding bytes_request_line
bytes_at c s expect_request_line = elim (split_line s) [
  | none ↦ stop true c s
  | some (line, rest) ↦ bytes_request_line c s line rest
]
bytes_at c s expect_headers = elim (split_line s) [
  | none ↦ stop true c s
  | some (line, rest) ↦ again (header_line c line) rest
]
bytes_at c s expect_body = stop true (record c { state = got_all }) s
bytes_at c s got_all = again c s

unfoldable pub bytes_loop : ℕ → HttpContext → List ℕ → Option (Bool × HttpContext × List ℕ)
bytes_loop zero c s = none
bytes_loop (suc fuel) c s = elim (bytes_at c s c.state) [
  | again c' s' ↦ bytes_loop fuel c' s'
  | stop ok c' s' ↦ some (ok, c', s')
]

-- What a request in the bytes makes of the context; the last part is what is not used up.
unfoldable pub parse_bytes : HttpContext → List ℕ → Option (Bool × HttpContext × List ℕ)
unfolding bytes_loop
parse_bytes c s = bytes_loop (suc (length s)) c s

-- A line that is split off takes at least its end away.
pub split_line-shorter :
    (s line rest : List ℕ) → split_line s ≡ some (line, rest) → length rest < length s
unfolding split_line
split_line-shorter s line rest h = go (first_at crlf s) refl h
  where
    go :
        (o : Option ℕ)
        → first_at crlf s ≡ o
        → cut_at s o ≡ some (line, rest)
        → length rest < length s
    go none e h = cc
    go (some i) e h = ground (arith, first_at-lt crlf s i e, length-drop (i + 2) s)

-- A round that goes on has used bytes up, and is not in the last state.
abbrev Progress : List ℕ → Round (List ℕ) → Type 0
Progress s (again c s') = (c.state ≢ got_all) × (length s' < length s)
Progress s (stop ok c s') = Unit {0}

header_line-state :
    (c : HttpContext) (line : List ℕ) → c.state ≢ got_all → (header_line c line).state ≢ got_all
unfolding header_line
header_line-state c line h = ground arith

bytes_at-Progress :
    (c : HttpContext) (s : List ℕ) (st : ParseState)
    → c.state ≡ st
    → st ≢ got_all
    → Progress s (bytes_at c s st)
unfolding bytes_at bytes_request_line
bytes_at-Progress c s expect_request_line e h = go (split_line s) refl
  where
    go :
        (o : Option (List ℕ × List ℕ))
        → split_line s ≡ o
        → Progress s
            (elim o [ none ↦ stop true c s | some (line, rest) ↦ bytes_request_line c s line rest ])
    go none q = tt
    go (some (line, rest)) q = ground (arith, split_line-shorter s line rest q)
bytes_at-Progress c s expect_headers e h = go (split_line s) refl
  where
    go :
        (o : Option (List ℕ × List ℕ))
        → split_line s ≡ o
        → Progress s
            (elim o [ none ↦ stop true c s | some (line, rest) ↦ again (header_line c line) rest ])
    go none q = tt
    go (some (line, rest)) q =
        (header_line-state c line (λ g. absurd (h (sym e ∙ g))), split_line-shorter s line rest q)
bytes_at-Progress c s expect_body e h = tt
bytes_at-Progress c s got_all e h = absurd (h refl)

-- With one round for each byte and one more the loop comes to an end, whatever the bytes are.
pub bytes_loop-total :
    (fuel : ℕ) (c : HttpContext) (s : List ℕ)
    → c.state ≢ got_all
    → length s < fuel
    → (r : Bool × HttpContext × List ℕ) × (bytes_loop fuel c s ≡ some r)
unfolding bytes_loop
bytes_loop-total zero c s h le = absurd (omega arith)
bytes_loop-total (suc fuel) c s h le =
    go (bytes_at c s c.state) (bytes_at-Progress c s c.state refl h)
      (λ c' s'. bytes_loop-total fuel c' s')
  where
    go :
        (r : Round (List ℕ))
        → Progress s r
        → ((c' : HttpContext) (s' : List ℕ)
            → c'.state ≢ got_all
            → length s' < fuel
            → (q : Bool × HttpContext × List ℕ) × (bytes_loop fuel c' s' ≡ some q))
        → (q : Bool × HttpContext × List ℕ) × ((elim r [
          | again c' s' ↦ bytes_loop fuel c' s'
          | stop ok c' s' ↦ some (ok, c', s')
        ])
            ≡ some q)
    go (again c' s') (p, lt) ih = ih c' s' p (omega arith)
    go (stop ok c' s') p ih = ((ok, c', s'), refl)

-- In the last state no branch of the loop applies: it goes round for ever.
pub bytes_loop-got_all :
    (fuel : ℕ) (r : HttpRequest) (s : List ℕ)
    → bytes_loop fuel (record { state = got_all; request = r }) s ≡ none
unfolding bytes_loop bytes_at
bytes_loop-got_all zero r s = refl
bytes_loop-got_all (suc fuel) r s = bytes_loop-got_all fuel r s

abbrev Refuses : Round (List ℕ) → Type 0
Refuses (stop false c s) = c.state ≡ expect_request_line
Refuses _ = Unit {0}

bytes_at-Refuses :
    (c : HttpContext) (s : List ℕ) (st : ParseState) → c.state ≡ st → Refuses (bytes_at c s st)
unfolding bytes_at bytes_request_line
bytes_at-Refuses c s expect_request_line e = ground arith
bytes_at-Refuses c s expect_headers e = ground arith
bytes_at-Refuses c s expect_body e = tt
bytes_at-Refuses c s got_all e = tt

-- A refusal leaves the parser waiting for a request line.
pub bytes_loop-refused :
    (fuel : ℕ) (c c' : HttpContext) (s s' : List ℕ)
    → bytes_loop fuel c s ≡ some (false, c', s')
    → c'.state ≡ expect_request_line
unfolding bytes_loop
bytes_loop-refused zero c c' s s' h = cc
bytes_loop-refused (suc fuel) c c' s s' h =
    go (bytes_at c s c.state) (bytes_at-Refuses c s c.state refl)
      (λ d t. bytes_loop-refused fuel d c' t s') h
  where
    go :
        (r : Round (List ℕ))
        → Refuses r
        → ((d : HttpContext) (t : List ℕ)
            → bytes_loop fuel d t ≡ some (false, c', s')
            → c'.state ≡ expect_request_line)
        → (elim r [ again d t ↦ bytes_loop fuel d t | stop ok d t ↦ some (ok, d, t) ])
          ≡ some (false, c', s')
        → c'.state ≡ expect_request_line
    go (again d t) k ih h = ih d t h
    go (stop true d t) k ih h = cc
    go (stop false d t) k ih h = ground arith
