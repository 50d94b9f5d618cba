-- ===== src/Buffer/Read.antt =====
-- The `retrieve` methods of matelib/Buffer.h.
use matelib.Prelude.{
  ℕ, ◌+◌, ◌≤◌, ◌<◌, ◌≡◌, sym, ap, ◌∙◌, inl, inr, List, [], ◌++◌, none, some, arith, sub_size-eq,
  length, take, drop, length-append, length-take, length-drop, take-append-drop, append_assoc, ltb,
  ltb_false→le, le→leb, lt→leb_false, Bool-cases,
}
use matelib.Prelude.Slices.{take_all, drop_all}
use matelib.Buffer.{
  Buffer, cheap_prepend, readable_bytes, retrieve_all, retrieve, retrieve_until, retrieve_as_string,
  retrieve_all_as_string,
}
use matelib.Buffer.Contents.{Holds, readable_bytes-Holds, length-Holds, peek-Holds}
use matelib.Buffer.Grow.{add_sub}

pub retrieve_all-Holds : {b : Buffer} {s : List ℕ} → Holds b s → Holds (retrieve_all b) []
unfolding retrieve_all
retrieve_all-Holds {b} h = record {
  pre = take cheap_prepend b.buffer;
  post = drop cheap_prepend b.buffer;
  layout = sym (take-append-drop cheap_prepend b.buffer);
  at_read = omega (arith, length-take cheap_prepend b.buffer, length-Holds h, h.headroom);
  at_write = omega (arith, length-take cheap_prepend b.buffer, length-Holds h, h.headroom);
  headroom = omega (arith, length-take cheap_prepend b.buffer, length-Holds h, h.headroom);
}

advance-Holds :
    {b : Buffer} {s : List ℕ} (n : ℕ)
    → Holds b s
    → n ≤ length s
    → Holds (record b { read_index = b.read_index + n }) (drop n s)
advance-Holds {b} {s} n h le = record {
  pre = h.pre ++ take n s;
  post = h.post;
  layout =
      h.layout
      ∙ ap (λ (t : List ℕ). h.pre ++ (t ++ h.post)) (sym (take-append-drop n s))
      ∙ ap (◌++◌ h.pre) (append_assoc (take n s) (drop n s) h.post)
      ∙ sym (append_assoc h.pre (take n s) _);
  at_read = omega (arith, h.at_read, length-append h.pre (take n s), length-take n s);
  at_write =
      omega (arith, h.at_write, length-append h.pre (take n s), length-take n s, length-drop n s);
  headroom = omega (arith, h.headroom, length-append h.pre (take n s));
}

-- On a well-formed buffer with at least `n` unread bytes, `retrieve` passes its assert and drops
-- exactly the first `n` of them.
pub retrieve-Holds :
    {b : Buffer} {s : List ℕ} (n : ℕ)
    → Holds b s
    → n ≤ length s
    → (b' : Buffer) × (retrieve b n ≡ some b') × Holds b' (drop n s)
unfolding retrieve
retrieve-Holds {b} {s} n h le = elim (Bool-cases (ltb n (readable_bytes b))) [
  | inl part ↦ (
    record b { read_index = b.read_index + n },
    rw (le→leb n (readable_bytes b) (omega (arith, readable_bytes-Holds h)), part),
    advance-Holds n h le,
  )
  | inr whole ↦ (
    retrieve_all b,
    rw (le→leb n (readable_bytes b) (omega (arith, readable_bytes-Holds h)), whole),
    rw (drop_all s n (omega (arith, ltb_false→le _ _ whole, readable_bytes-Holds h)))
        (retrieve_all-Holds h),
  )
]

-- `retrieve` asserts that so many bytes are there.
pub retrieve_beyond :
    {b : Buffer} {s : List ℕ} (n : ℕ) → Holds b s → length s < n → retrieve b n ≡ none
unfolding retrieve
retrieve_beyond {b} n h lt =
    rw (lt→leb_false n (readable_bytes b) (omega (arith, readable_bytes-Holds h)))

-- On a well-formed buffer with at least `n` unread bytes, `retrieve_until` with a pointer `n`
-- bytes behind the first unread one passes its asserts and drops exactly the first `n`.
pub retrieve_until-Holds :
    {b : Buffer} {s : List ℕ} (n : ℕ)
    → Holds b s
    → n ≤ length s
    → (b' : Buffer) × (retrieve_until b (b.read_index + n) ≡ some b') × Holds b' (drop n s)
unfolding retrieve_until
retrieve_until-Holds {b} {s} n h le =
    let (b', e, h') = retrieve-Holds n h le in
    (
      b',
      rw
          (
            le→leb b.read_index (b.read_index + n) (omega arith),
            le→leb (b.read_index + n) b.write_index (omega (arith, h.at_read, h.at_write)),
            sub_size-eq (b.read_index + n) b.read_index (omega arith),
            add_sub b.read_index n,
          )
          e,
      h',
    )

-- `retrieveAsString` returns the first `n` unread bytes and drops them.
pub retrieve_as_string-Holds :
    {b : Buffer} {s : List ℕ} (n : ℕ)
    → Holds b s
    → n ≤ length s
    → (b' : Buffer) × (retrieve_as_string b n ≡ some (take n s, b')) × Holds b' (drop n s)
unfolding retrieve_as_string
retrieve_as_string-Holds {b} {s} n h le =
    let (b', e, h') = retrieve-Holds n h le in
    (
      b',
      rw (
        le→leb n (readable_bytes b) (omega (arith, readable_bytes-Holds h)),
        e,
        peek-Holds h n le,
      ),
      h',
    )

pub retrieve_all_as_string-Holds :
    {b : Buffer} {s : List ℕ}
    → Holds b s
    → (b' : Buffer) × (retrieve_all_as_string b ≡ some (s, b')) × Holds b' []
unfolding retrieve_all_as_string
retrieve_all_as_string-Holds {b} {s} h =
    let (b', e, h') = retrieve_as_string-Holds (length s) h (omega arith) in
    (
      b',
      rw (readable_bytes-Holds h, e, take_all s (length s) (omega arith)),
      rw (drop_all s (length s) (omega arith)) at h',
    )
