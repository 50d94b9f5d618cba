-- ===== src/Http/Context/Refine.antt =====
-- `parseRequest` of http/HttpContext.cc over a buffer, and the parser over its unread bytes.
use matelib.Prelude.{
  ℕ, zero, suc, ◌+◌, ◌≡◌, ◌≢◌, refl, ap, ◌∙◌, Bool, true, List, Option, none, some, arith,
  Bool-cases, inl, inr, length, take, drop, sub_size-eq,
}
use matelib.Buffer.{Buffer, crlf, peek, retrieve_until}
use matelib.Buffer.Contents.{Holds, readable_bytes-Holds, peek-Holds}
use matelib.Buffer.Read.{retrieve_until-Holds}
use matelib.Buffer.Search.{first_at, first_at_room, find_crlf-Holds, shifted}
use matelib.Http.Context.{
  HttpContext, ParseState, expect_request_line, expect_headers, expect_body, got_all, Round, again,
  stop, process_request_line, header_line, request_line_round, header_round, round_at, parse_round,
  parse_loop, parse_request, before,
}
use matelib.Http.Context.Bytes.{
  split_line, cut_at, bytes_request_line, bytes_at, bytes_loop, parse_bytes, bytes_loop-total,
}

-- The buffer's round does what the bytes' round does, and the buffer holds what is left.
abbrev Matches : Round (List ℕ) → Option (Round Buffer) → Type 0
Matches (again c s) r = (b : Buffer) × (r ≡ some (again c b)) × Holds b s
Matches (stop ok c s) r = (b : Buffer) × (r ≡ some (stop ok c b)) × Holds b s

module _ {b : Buffer} {s : List ℕ} (c : HttpContext) (h : Holds b s) where
  -- The bytes before the line end at `i`, and the buffer behind it.
  module _ (i : ℕ) (found : first_at crlf s ≡ some i) where
    line-Holds : before b (b.read_index + i) ≡ take i s
    line-Holds =
        ap (λ n. peek b n) (sub_size-eq (b.read_index + i) b.read_index (omega arith) ∙ omega arith)
        ∙ peek-Holds h i (omega (arith, first_at_room crlf s i found))

    behind :
        (b' : Buffer) × (retrieve_until b (b.read_index + i + 2) ≡ some b')
        × Holds b' (drop (i + 2) s)
    behind =
        let (b', e, h') = retrieve_until-Holds (i + 2) h (first_at_room crlf s i found) in
        (
          b',
          ap (retrieve_until b) {x = b.read_index + i + 2} {y = b.read_index + (i + 2)}
                (omega arith)
              ∙ e,
          h',
        )

    request_line-Matches :
        Matches
          (bytes_request_line c s (take i s) (drop (i + 2) s))
          (request_line_round c b (b.read_index + i))
    unfolding bytes_request_line request_line_round
    request_line-Matches = elim (Bool-cases (process_request_line c.request (take i s)).0) [
      | inl good ↦ let (b', e, h') = behind in rw (line-Holds, good, e) (b', refl, h')
      | inr bad ↦ rw (line-Holds, bad) (b, refl, h)
    ]

    header-Matches :
        Matches
          (again (header_line c (take i s)) (drop (i + 2) s))
          (header_round c b (b.read_index + i))
    unfolding header_round
    header-Matches = let (b', e, h') = behind in (b', rw (e, line-Holds), h')

  round_at-Matches : (st : ParseState) → Matches (bytes_at c s st) (round_at c b st)
  unfolding bytes_at round_at split_line
  round_at-Matches expect_request_line =
      rw (find_crlf-Holds h, round_at) (go (first_at crlf s) refl)
    where
      go :
          (o : Option ℕ)
          → first_at crlf s ≡ o
          → Matches
              (elim (cut_at s o) [
                | none ↦ stop true c s
                | some (line, rest) ↦ bytes_request_line c s line rest
              ])
              (elim (shifted b.read_index o) [
                | none ↦ some (stop true c b)
                | some end ↦ request_line_round c b end
              ])
      go none e = (b, refl, h)
      go (some i) e = request_line-Matches i e
  round_at-Matches expect_headers = rw (find_crlf-Holds h, round_at) (go (first_at crlf s) refl)
    where
      go :
          (o : Option ℕ)
          → first_at crlf s ≡ o
          → Matches
              (elim (cut_at s o) [
                | none ↦ stop true c s
                | some (line, rest) ↦ again (header_line c line) rest
              ])
              (elim (shifted b.read_index o) [
                | none ↦ some (stop true c b)
                | some end ↦ header_round c b end
              ])
      go none e = (b, refl, h)
      go (some i) e = header-Matches i e
  round_at-Matches expect_body = (b, refl, h)
  round_at-Matches got_all = (b, refl, h)

-- A result over the buffer that is a result over bytes.
abbrev pub MatchesResult :
    Option (Bool × HttpContext × List ℕ) → Option (Bool × HttpContext × Buffer) → Type 0
MatchesResult none r = r ≡ none
MatchesResult (some (ok, c, s)) r = (b : Buffer) × (r ≡ some (ok, c, b)) × Holds b s

parse_loop-Matches :
    (fuel : ℕ) {b : Buffer} {s : List ℕ} (c : HttpContext)
    → Holds b s
    → MatchesResult (bytes_loop fuel c s) (parse_loop fuel c b)
unfolding bytes_loop parse_loop parse_round
parse_loop-Matches zero c h = refl
parse_loop-Matches (suc fuel) {b} {s} c h =
    go (bytes_at c s c.state) (round_at c b c.state) (round_at-Matches c h c.state)
      (λ c' b' s' h'. parse_loop-Matches fuel {b = b'} {s = s'} c' h')
  where
    go :
        (r : Round (List ℕ)) (q : Option (Round Buffer))
        → Matches r q
        → ((c' : HttpContext) (b' : Buffer) (s' : List ℕ)
            → Holds b' s'
            → MatchesResult (bytes_loop fuel c' s') (parse_loop fuel c' b'))
        → MatchesResult
            (elim r [ again c' s' ↦ bytes_loop fuel c' s' | stop ok c' s' ↦ some (ok, c', s') ])
            (elim q [
              | none ↦ none
              | some (again c' b') ↦ parse_loop fuel c' b'
              | some (stop ok c' b') ↦ some (ok, c', b')
            ])
    go (again c' s') q (b', e, h') ih = rw e (ih c' b' s' h')
    go (stop ok c' s') q (b', e, h') ih = (b', rw e, h')

-- On a well-formed buffer, `parse_request` gives the result, the context and the unread bytes
-- that the parser over plain byte sequences gives for the unread bytes, and fails where that one
-- does.
pub parse_request-Matches :
    {b : Buffer} {s : List ℕ} (c : HttpContext)
    → Holds b s
    → MatchesResult (parse_bytes c s) (parse_request c b)
unfolding parse_bytes parse_request
parse_request-Matches {b} {s} c h =
    rw (readable_bytes-Holds h) (parse_loop-Matches (suc (length s)) c h)

-- For every well-formed buffer and every context that is not in the state got_all, the loop of
-- `parse_request` ends within one round more than there are unread bytes, with no assert
-- failing, and leaves a well-formed buffer.
pub parse_request-total :
    {b : Buffer} {s : List ℕ} (c : HttpContext)
    → Holds b s
    → c.state ≢ got_all
    → (ok : Bool) × (c' : HttpContext) × (b' : Buffer) × (s' : List ℕ) × (parse_request c b
        ≡ some (ok, c', b'))
      × Holds b' s'
unfolding parse_bytes
parse_request-total {b} {s} c h n =
    let ((ok, c', s'), e) = bytes_loop-total (suc (length s)) c s n (omega arith) in
    let m : MatchesResult (some (ok, c', s')) (parse_request c b) =
      rw e at (parse_request-Matches c h) in
    (ok, c', m.0, s', m.1, m.2)
