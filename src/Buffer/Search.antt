-- ===== src/Buffer/Search.antt =====
-- The `find` methods of matelib/Buffer.h, and a reference search over byte sequences.
use matelib.Prelude.{
  ℕ, zero, suc, ◌+◌, ◌≤◌, ◌<◌, ◌≡◌, ◌≢◌, refl, ap, ◌∙◌, true, false, List, [], ◌∷◌, ◌++◌, Option,
  none, some, arith, ◌==◌, if◌then◌else◌, length, take, drop, sub_size, sub_size-eq, le→leb,
  ne→==_false, ==_refl, length-append, length-drop, length-take,
}
use Prim.Native.Nat.add
use matelib.Prelude.Slices.{slice, take-append_left, drop-append_right, drop-append_le}
use matelib.Buffer.{
  Buffer, readable_bytes, starts_with, search, crlf, find_crlf, find_crlf_from, find_str,
}
use matelib.Buffer.Contents.{Holds, peek_all-Holds, readable_bytes-Holds}

-- Where `pat` first stands in `s`.
unfoldable pub first_at : List ℕ → List ℕ → Option ℕ
first_at pat [] = none
first_at pat (x ∷ xs) =
    if starts_with pat (x ∷ xs)
    then some 0
    else (elim (first_at pat xs) [ none ↦ none | some i ↦ some (suc i) ])

abbrev pub index_or_end : Option ℕ → ℕ → ℕ
index_or_end none end = end
index_or_end (some i) end = i

pub search-eq : (pat s : List ℕ) → search pat s ≡ index_or_end (first_at pat s) (length s)
unfolding search first_at
search-eq pat [] = refl
search-eq pat (x ∷ xs) = ground (arith, search-eq pat xs)

pub first_at-lt : (pat s : List ℕ) (i : ℕ) → first_at pat s ≡ some i → i < length s
unfolding first_at
first_at-lt pat [] i h = ground arith
first_at-lt pat (x ∷ xs) zero h = omega arith
first_at-lt pat (x ∷ xs) (suc i) h = ground (arith, first_at-lt pat xs i)

starts_with_sound : (pat s : List ℕ) → starts_with pat s ≡ true → s ≡ pat ++ drop (length pat) s
starts_with_sound [] s h = refl
starts_with_sound (p ∷ pat) [] h = ground arith
starts_with_sound (p ∷ pat) (x ∷ s) h = ground (arith, starts_with_sound pat s)

-- Where the search stops the pattern stands.
pub first_at_sound :
    (pat s : List ℕ) (i : ℕ)
    → first_at pat s ≡ some i
    → s ≡ take i s ++ (pat ++ drop (i + length pat) s)
unfolding first_at
first_at_sound pat [] i h = cc
first_at_sound pat (x ∷ xs) zero h =
    rw (add.zero (length pat)) (starts_with_sound pat (x ∷ xs) (ground arith))
first_at_sound pat (x ∷ xs) (suc i) h =
    rw (add.suc i (length pat)) (ap (◌∷◌ x) (first_at_sound pat xs i (ground arith)))

-- It fits in there.
pub first_at_room : (pat s : List ℕ) (i : ℕ) → first_at pat s ≡ some i → i + length pat ≤ length s
first_at_room pat s i h = omega (
  arith,
  ap length (first_at_sound pat s i h),
  length-append (take i s) (pat ++ drop (i + length pat) s),
  length-append pat (drop (i + length pat) s),
  length-take i s,
  first_at-lt pat s i h,
)

-- It stops at the first place.
pub first_at_least :
    (pat s : List ℕ) (i j : ℕ)
    → first_at pat s ≡ some i
    → j < i
    → starts_with pat (drop j s) ≡ false
unfolding first_at
first_at_least pat [] i j h lt = cc
first_at_least pat (x ∷ xs) zero j h lt = absurd (omega arith)
first_at_least pat (x ∷ xs) (suc i) zero h lt = ground arith
first_at_least pat (x ∷ xs) (suc i) (suc j) h lt =
    first_at_least pat xs i j (ground arith) (omega arith)

-- It finds nothing only where the pattern stands nowhere.
pub first_at-none :
    (pat s : List ℕ) (j : ℕ)
    → first_at pat s ≡ none
    → j < length s
    → starts_with pat (drop j s) ≡ false
unfolding first_at
first_at-none pat [] j h lt = absurd (omega arith)
first_at-none pat (x ∷ xs) zero h lt = ground arith
first_at-none pat (x ∷ xs) (suc j) h lt = first_at-none pat xs j (ground arith) (omega arith)

-- The index `readIndex_ + i` where the search found the place `i` of the unread bytes.
abbrev pub shifted : ℕ → Option ℕ → Option ℕ
shifted base none = none
shifted base (some i) = some (base + i)

pointer_lem :
    (base end : ℕ) (pat s : List ℕ)
    → end ≡ base + length s
    → (let found = base + search pat s in if found == end then none else some found)
      ≡ shifted base (first_at pat s)
pointer_lem base end pat s h = go (first_at pat s) refl
  where
    go :
        (o : Option ℕ)
        → first_at pat s ≡ o
        → (let found = base + search pat s in if found == end then none else some found)
          ≡ shifted base o
    go none e = rw (search-eq pat s, e, h, ==_refl (base + length s))
    go (some i) e = rw (
      search-eq pat s,
      e,
      ne→==_false (base + i) end (λ eq. absurd (omega (arith, first_at-lt pat s i e, eq, h))),
    )

module _ {b : Buffer} {s : List ℕ} (h : Holds b s) where
  -- `findCRLF` points at the first line end of the unread bytes, and is null if there is none.
  pub find_crlf-Holds : find_crlf b ≡ shifted b.read_index (first_at crlf s)
  unfolding find_crlf
  find_crlf-Holds =
      rw (peek_all-Holds h)
        (pointer_lem b.read_index b.write_index crlf s (omega (arith, h.at_read, h.at_write)))

  -- On a well-formed buffer with at least as many unread bytes as the pattern has, `find_str`
  -- passes its assert and points at the first place where the pattern stands in the unread
  -- bytes, as the search over byte sequences finds it, and is null if it finds none.
  pub find_str-Holds :
      (pat : List ℕ)
      → length pat ≤ length s
      → find_str b pat ≡ some (shifted b.read_index (first_at pat s))
  unfolding find_str
  find_str-Holds pat le =
      rw
        (
          le→leb (length pat) (readable_bytes b) (omega (arith, readable_bytes-Holds h)),
          peek_all-Holds h,
        )
        (ap some
          (pointer_lem b.read_index b.write_index pat s (omega (arith, h.at_read, h.at_write))))

  -- `findCRLF(start)` searches from the `k`th unread byte on.
  pub find_crlf_from-Holds :
      (k : ℕ)
      → k ≤ length s
      → find_crlf_from b (b.read_index + k)
        ≡ some (shifted (b.read_index + k) (first_at crlf (drop k s)))
  unfolding find_crlf_from
  find_crlf_from-Holds k le =
      rw
        (
          le→leb b.read_index (b.read_index + k) (omega arith),
          le→leb (b.read_index + k) b.write_index (omega (arith, h.at_read, h.at_write)),
          tail,
        )
        (ap some (
          pointer_lem (b.read_index + k) b.write_index crlf (drop k s)
            (omega (arith, h.at_read, h.at_write, length-drop k s))))
    where
      rest : ℕ
      rest = sub_size b.write_index (b.read_index + k)

      length_rest : rest ≡ length (drop k s)
      length_rest =
          sub_size-eq b.write_index (b.read_index + k) (omega (arith, h.at_read, h.at_write))
          ∙ omega (arith, h.at_read, h.at_write, length-drop k s)

      tail : slice b.buffer (b.read_index + k) rest ≡ drop k s
      tail =
          ap (λ (xs : List ℕ). take rest (drop (b.read_index + k) xs)) h.layout
          ∙ ap (take rest) (
              drop-append_right h.pre (s ++ h.post) (b.read_index + k) k (omega (arith, h.at_read))
              ∙ drop-append_le s h.post k le)
          ∙ take-append_left (drop k s) h.post rest length_rest

-- No byte of the list is `c`.
abbrev pub Avoids : ℕ → List ℕ → Type 0
Avoids c [] = Unit {0}
Avoids c (x ∷ xs) = (x ≢ c) × Avoids c xs

-- A line without a carriage return ends where the first line end stands.
pub first_at-line :
    (line rest : List ℕ)
    → Avoids 13 line
    → first_at crlf (line ++ (crlf ++ rest)) ≡ some (length line)
unfolding first_at
first_at-line [] rest h = refl
first_at-line (x ∷ line) rest h = rw (ne→==_false x 13 h.0, first_at-line line rest h.1)

-- `r` is the first place where the pattern stands, or `none` if it stands nowhere.
abbrev pub IsFirst : List ℕ → List ℕ → Option ℕ → Type 0
IsFirst pat s none = (j : ℕ) → j < length s → starts_with pat (drop j s) ≡ false
IsFirst pat s (some k) =
    (s ≡ take k s ++ (pat ++ drop (k + length pat) s))
    × ((j : ℕ) → j < k → starts_with pat (drop j s) ≡ false)

first_at-IsFirst : (pat s : List ℕ) (r : Option ℕ) → first_at pat s ≡ r → IsFirst pat s r
first_at-IsFirst pat s none e = λ j lt. first_at-none pat s j e lt
first_at-IsFirst pat s (some k) e =
    (first_at_sound pat s k e, λ j lt. first_at_least pat s k j e lt)

-- On a well-formed buffer with at least as many unread bytes as the pattern has, `find_str`
-- passes its assert; it points at the first place where the pattern stands in the unread bytes,
-- and is null only where the pattern stands nowhere in them.
pub find_str-IsFirst :
    {b : Buffer} {s : List ℕ} (pat : List ℕ)
    → Holds b s
    → length pat ≤ length s
    → (r : Option ℕ) × (find_str b pat ≡ some (shifted b.read_index r)) × IsFirst pat s r
find_str-IsFirst {s = s} pat h le =
    (first_at pat s, find_str-Holds h pat le, first_at-IsFirst pat s (first_at pat s) refl)

-- On a well-formed buffer `find_crlf` points at the first line end in the unread bytes, and is
-- null only where no line end stands in them.
pub find_crlf-IsFirst :
    {b : Buffer} {s : List ℕ}
    → Holds b s
    → (r : Option ℕ) × (find_crlf b ≡ shifted b.read_index r) × IsFirst crlf s r
find_crlf-IsFirst {s = s} h =
    (first_at crlf s, find_crlf-Holds h, first_at-IsFirst crlf s (first_at crlf s) refl)
