-- ===== src/Buffer/Whole.antt =====
-- The constructors, `swap`, `clear`, `erase` and `readFd` of matelib/Buffer.h and Buffer.cc.
use matelib.Prelude.{
  ℕ, ◌+◌, ◌-◌, ◌≤◌, ◌≡◌, refl, sym, ap, ◌∙◌, inl, inr, true, List, [], ◌++◌, none, some, arith,
  sub_size, sub_size-eq, length, take, drop, replicate, length-append, length-take, length-drop,
  take-append-drop, append_assoc, length-replicate, replicate-append, leb, ◌==◌, leb→le,
  lt_of_leb-false, ==→eq, le→leb, Bool-cases,
}
use matelib.Prelude.Slices.{
  take_all, take-append_right, drop-append_right, drop-append_le, take-append_le, write_at_inside,
}
use matelib.Buffer.{
  Buffer, cheap_prepend, initial_size, empty, writeable_bytes, of_bytes, copy, swap, move,
  retrieve_all, erase, clear,
}
use Prim.Native.Nat.add
use mathlib.Core.Path.{subst}
use matelib.Buffer.{read_fd}
use matelib.Buffer.Contents.{
  Holds, readable_bytes-Holds, writeable_bytes-Holds, length-Holds, peek-Holds,
}
use matelib.Buffer.Grow.{append-Holds, Filled, write_at-Filled}
use matelib.Buffer.Read.{retrieve-Holds}

abbrev blank : ℕ → Buffer
blank n = record { buffer = replicate n 0; read_index = cheap_prepend; write_index = cheap_prepend }

blank-Holds : (n : ℕ) → cheap_prepend ≤ n → Holds (blank n) []
blank-Holds n le = record {
  pre = replicate cheap_prepend 0;
  post = replicate (n - cheap_prepend) 0;
  layout =
      ap (λ k. replicate k 0) {x = n} {y = cheap_prepend + (n - cheap_prepend)} (omega arith)
      ∙ replicate-append cheap_prepend (n - cheap_prepend) 0;
  at_read = refl;
  at_write = refl;
  headroom = omega arith;
}

pub empty-Holds : Holds empty []
unfolding empty
empty-Holds = blank-Holds (cheap_prepend + initial_size) (omega arith)

-- A buffer made from bytes holds those bytes.
pub of_bytes-Holds : (bytes : List ℕ) → (b : Buffer) × (of_bytes bytes ≡ some b) × Holds b bytes
unfolding of_bytes
of_bytes-Holds bytes = append-Holds bytes empty-Holds

-- The copy of a well-formed buffer can be made, is well formed and holds the same unread bytes.
pub copy-Holds :
    {rhs : Buffer} {s : List ℕ} → Holds rhs s → (b : Buffer) × (copy rhs ≡ some b) × Holds b s
unfolding copy
copy-Holds {rhs} {s} h =
    let (b, e, h') =
      append-Holds s (blank-Holds (cheap_prepend + initial_size + length s) (omega arith)) in
    (
      b,
      rw
          (
            readable_bytes-Holds h,
            peek-Holds h (length s) (omega arith),
            take_all s (length s) (omega arith),
          )
          e,
      h',
    )

-- `swap` exchanges the unread bytes of two buffers.
pub swap-Holds :
    {a b : Buffer} {s t : List ℕ}
    → Holds a s
    → Holds b t
    → Holds (swap a b).0 t × Holds (swap a b).1 s
unfolding swap
swap-Holds h k = (k, h)

-- A buffer made by a move from a well-formed one holds its unread bytes, and the original is
-- left well formed and with nothing unread.
pub move-Holds :
    {rhs : Buffer} {s : List ℕ} → Holds rhs s → Holds (move rhs).0 s × Holds (move rhs).1 []
unfolding move
move-Holds h = swap-Holds empty-Holds h

-- `clear` empties the buffer, and its `memset` stays inside the vector.
pub clear-Holds :
    {b : Buffer} {s : List ℕ} → Holds b s → (b' : Buffer) × (clear b ≡ some b') × Holds b' []
unfolding clear retrieve_all
clear-Holds {b} {s} h = (
  record b { buffer = zeroed; read_index = cheap_prepend; write_index = cheap_prepend },
  rw (write_at_inside b.buffer cheap_prepend zeros inside, retrieve_all),
  record {
    pre = take cheap_prepend b.buffer;
    post = zeros ++ drop (cheap_prepend + length zeros) b.buffer;
    layout = refl;
    at_read = omega (arith, length-take cheap_prepend b.buffer, length-Holds h, h.headroom);
    at_write = omega (arith, length-take cheap_prepend b.buffer, length-Holds h, h.headroom);
    headroom = omega (arith, length-take cheap_prepend b.buffer, length-Holds h, h.headroom);
  },
)
  where
    zeros : List ℕ
    zeros = replicate (sub_size b.write_index cheap_prepend) 0

    zeroed : List ℕ
    zeroed = take cheap_prepend b.buffer ++ (zeros ++ drop (cheap_prepend + length zeros) b.buffer)

    inside : cheap_prepend + length zeros ≤ length b.buffer
    inside = omega (
      arith,
      length-replicate {A = ℕ} (sub_size b.write_index cheap_prepend) 0,
      sub_size-eq b.write_index cheap_prepend (omega (arith, h.at_write, h.headroom)),
      length-Holds h,
      h.at_write,
      h.headroom,
    )

module _ {b : Buffer} {s : List ℕ} (i len : ℕ) (h : Holds b s) (le : i + len ≤ length s) where
  abbrev cut : Buffer
  cut = record b {
    buffer = take (b.read_index + i) b.buffer ++ drop (b.read_index + i + len) b.buffer;
    write_index = sub_size b.write_index len;
  }

  before : take (b.read_index + i) b.buffer ≡ h.pre ++ take i s
  before =
      ap (take (b.read_index + i)) h.layout
      ∙ take-append_right h.pre (s ++ h.post) (b.read_index + i) i (omega (arith, h.at_read))
      ∙ ap (◌++◌ h.pre) (take-append_le s h.post i (omega arith))

  behind : drop (b.read_index + i + len) b.buffer ≡ drop (i + len) s ++ h.post
  behind =
      ap (drop (b.read_index + i + len)) h.layout
      ∙ drop-append_right h.pre (s ++ h.post) (b.read_index + i + len) (i + len)
          (omega (arith, h.at_read))
      ∙ drop-append_le s h.post (i + len) le

  cut-Holds : Holds cut (take i s ++ drop (i + len) s)
  cut-Holds = record {
    pre = h.pre;
    post = h.post;
    layout =
        ap (λ (t : List ℕ). t ++ drop (b.read_index + i + len) b.buffer) before
        ∙ ap (◌++◌ (h.pre ++ take i s)) behind
        ∙ append_assoc h.pre (take i s) _
        ∙ ap (◌++◌ h.pre) (sym (append_assoc (take i s) (drop (i + len) s) h.post));
    at_read = h.at_read;
    at_write =
        sub_size-eq b.write_index len (omega (arith, h.at_write, le))
        ∙ omega (
          arith,
          h.at_write,
          length-append (take i s) (drop (i + len) s),
          length-take i s,
          length-drop (i + len) s,
          le,
        );
    headroom = h.headroom;
  }

  -- On a well-formed buffer with at least `i + len` unread bytes, `erase` at the `i`th unread
  -- byte passes its asserts and cuts exactly `len` bytes out of the unread ones there.
  pub erase-Holds :
      (b' : Buffer) × (erase b (b.read_index + i) len ≡ some b')
      × Holds b' (take i s ++ drop (i + len) s)
  unfolding erase
  erase-Holds = elim (Bool-cases (b.read_index + i == b.read_index)) [
    | inl front ↦
        let (b', e, h') = retrieve-Holds len h (omega arith) in
        let zero_i : i ≡ 0 = omega (arith, ==→eq _ _ front) in
        (b', rw (low, high, front) e, rw zero_i (rw (add.zero len) h'))
    | inr inner ↦ (cut, rw (low, high, inner), cut-Holds)
  ]
    where
      low : leb b.read_index (b.read_index + i) ≡ true
      low = le→leb b.read_index (b.read_index + i) (omega arith)

      high : leb (b.read_index + i + len) b.write_index ≡ true
      high = le→leb _ _ (omega (arith, h.at_read, h.at_write, le))

-- On a well-formed buffer `read_fd` adds all bytes that `readv` delivers behind the unread ones,
-- whether they fit the free space or pass over it into the buffer on the stack, and returns
-- their number.
pub read_fd-Holds :
    {b : Buffer} {s : List ℕ} (bytes : List ℕ)
    → Holds b s
    → (b' : Buffer) × (read_fd b (some bytes) ≡ some (some (length bytes), b'))
      × Holds b' (s ++ bytes)
unfolding read_fd
read_fd-Holds {b} {s} bytes h = elim (Bool-cases (leb (length bytes) (writeable_bytes b))) [
  | inl fits ↦
      let all : take (writeable_bytes b) bytes ≡ bytes =
        take_all bytes (writeable_bytes b) (leb→le _ _ fits) in
      let f : Filled b s bytes =
        write_at-Filled bytes h
          (omega (arith, leb→le _ _ fits, writeable_bytes-Holds h, length-Holds h, h.at_write)) in
      (
        record b { buffer = f.after; write_index = b.write_index + length bytes },
        rw (all, f.written, fits),
        f.holds,
      )
  | inr spills ↦
      let w = writeable_bytes b in
      let short : w ≤ length bytes = omega (arith, lt_of_leb-false (length bytes) w spills) in
      let taken : length (take w bytes) ≡ w = omega (arith, length-take w bytes, short) in
      let f : Filled b s (take w bytes) =
        write_at-Filled (take w bytes) h
          (omega (arith, taken, writeable_bytes-Holds h, length-Holds h, h.at_write)) in
      let full : b.write_index + length (take w bytes) ≡ length f.after =
        omega (arith, f.same_size, taken, writeable_bytes-Holds h, length-Holds h, h.at_write) in
      let held : Holds (record b { buffer = f.after; write_index = length f.after })
          (s ++ take w bytes) =
        subst (λ n. Holds (record b { buffer = f.after; write_index = n }) (s ++ take w bytes)) full
          f.holds in
      let (b', e, h') = append-Holds (drop w bytes) held in
      (
        b',
        rw (f.written, spills, e),
        rw (append_assoc s (take w bytes) (drop w bytes), take-append-drop w bytes) at h',
      )
]

-- After an error of `readv` the buffer is as it was.
pub read_fd-error : (b : Buffer) → read_fd b none ≡ some (none, b)
unfolding read_fd
read_fd-error b = refl
