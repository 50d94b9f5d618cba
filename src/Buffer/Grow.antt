-- ===== src/Buffer/Grow.antt =====
-- `ensureWritableBytes` and `append` of matelib/Buffer.h and Buffer.cc.
use matelib.Prelude.{
  ℕ, ◌+◌, ◌-◌, ◌≤◌, ◌≡◌, refl, sym, ap, ◌∙◌, inl, inr, true, false, List, ◌++◌, some, arith,
  sub_size-eq, length, take, drop, replicate, length-append, length-take, length-drop,
  take-append-drop, append_assoc, length-replicate, ltb, ◌==◌, lt→ltb, ltb→lt, ltb_false→le,
  Bool-cases,
}
use matelib.Prelude.Slices.{write_at, resize, take_all, write_at_inside, write_at-middle}
use matelib.Buffer.{Buffer, cheap_prepend, writeable_bytes, ensure_writable_bytes, append}
use matelib.Buffer.Contents.{
  Holds, readable_bytes-Holds, writeable_bytes-Holds, length-Holds, peek_all-Holds,
}

==-add_sub : (n : ℕ) → (n == (cheap_prepend + n - cheap_prepend)) ≡ true
==-add_sub n = ground arith

pub add_sub : (a n : ℕ) → a + n - a ≡ n
add_sub a n = omega arith

pub length-resize : (xs : List ℕ) (n : ℕ) → n ≤ length (resize xs n)
length-resize xs n = omega (
  arith,
  length-append (take n xs) (replicate (n - length xs) 0),
  length-take n xs,
  length-replicate (n - length xs) (let z : ℕ = 0 in z),
)

-- Growing keeps the unread bytes and leaves room for `len` more.
pub record HasRoom (b : Buffer) (s : List ℕ) (len : ℕ) : Type 0 where
  pub grown : Buffer
  pub ensured : ensure_writable_bytes b len ≡ some grown
  pub holds : Holds grown s
  pub room : grown.write_index + len ≤ length grown.buffer

module _ {b : Buffer} {s : List ℕ} (h : Holds b s) (len : ℕ) where
  resized-Holds :
      length b.buffer ≤ b.write_index + len
      → Holds (record b { buffer = resize b.buffer (b.write_index + len) }) s
  resized-Holds short = record {
    pre = h.pre;
    post = h.post ++ replicate (b.write_index + len - length b.buffer) 0;
    layout =
        ap (λ (xs : List ℕ). xs ++ replicate (b.write_index + len - length b.buffer) 0)
          (take_all b.buffer (b.write_index + len) short ∙ h.layout)
        ∙ append_assoc h.pre (s ++ h.post) _
        ∙ ap (◌++◌ h.pre) (append_assoc s h.post _);
    at_read = h.at_read;
    at_write = h.at_write;
    headroom = h.headroom;
  }

  moved : Buffer
  moved = record b {
    buffer = take cheap_prepend b.buffer ++ (s ++ drop (cheap_prepend + length s) b.buffer);
    read_index = cheap_prepend;
    write_index = cheap_prepend + length s;
  }

  length-moved : length moved.buffer ≡ length b.buffer
  unfolding moved
  length-moved = omega (
    arith,
    length-append (take cheap_prepend b.buffer) (s ++ drop (cheap_prepend + length s) b.buffer),
    length-append s (drop (cheap_prepend + length s) b.buffer),
    length-take cheap_prepend b.buffer,
    length-drop (cheap_prepend + length s) b.buffer,
    length-Holds h,
    h.headroom,
  )

  moved-Holds : Holds moved s
  unfolding moved
  moved-Holds = record {
    pre = take cheap_prepend b.buffer;
    post = drop (cheap_prepend + length s) b.buffer;
    layout = refl;
    at_read = omega (arith, length-take cheap_prepend b.buffer, length-Holds h, h.headroom);
    at_write = omega (arith, length-take cheap_prepend b.buffer, length-Holds h, h.headroom);
    headroom = omega (arith, length-take cheap_prepend b.buffer, length-Holds h, h.headroom);
  }

  -- The move is made only when the prepended space is really there, so both asserts pass.
  ensure-moved :
      ltb (writeable_bytes b) len ≡ true
      → ltb (writeable_bytes b + b.read_index) (len + cheap_prepend) ≡ false
      → ensure_writable_bytes b len ≡ some moved
  unfolding ensure_writable_bytes moved
  ensure-moved small fits = rw (
    small,
    fits,
    lt→ltb cheap_prepend b.read_index (omega (arith, ltb→lt _ _ small, ltb_false→le _ _ fits)),
    peek_all-Holds h,
    readable_bytes-Holds h,
    write_at_inside b.buffer cheap_prepend s (omega (arith, length-Holds h, h.headroom)),
    sub_size-eq (cheap_prepend + length s) cheap_prepend (omega arith),
    ==-add_sub (length s),
  )

  pub ensure_writable_bytes-HasRoom : HasRoom b s len
  unfolding ensure_writable_bytes moved
  ensure_writable_bytes-HasRoom = elim (Bool-cases (ltb (writeable_bytes b) len)) [
    | inr enough ↦ record {
      grown = b;
      ensured = rw enough;
      holds = h;
      room =
          omega
            (arith, ltb_false→le _ _ enough, writeable_bytes-Holds h, length-Holds h, h.at_write);
    }
    | inl small ↦ elim (Bool-cases (ltb (writeable_bytes b + b.read_index) (len + cheap_prepend))) [
      | inl short ↦ record {
        grown = record b { buffer = resize b.buffer (b.write_index + len) };
        ensured = rw (small, short);
        holds =
            resized-Holds (
              omega (arith, ltb→lt _ _ small, writeable_bytes-Holds h, length-Holds h, h.at_write));
        room = length-resize b.buffer (b.write_index + len);
      }
      | inr fits ↦ record {
        grown = moved;
        ensured = ensure-moved small fits;
        holds = moved-Holds;
        room = omega (
          arith,
          ltb_false→le _ _ fits,
          writeable_bytes-Holds h,
          length-Holds h,
          h.at_read,
          h.headroom,
          length-moved,
        );
      }
    ]
  ]

-- What a write behind the unread bytes leaves.
pub record Filled (b : Buffer) (s bytes : List ℕ) : Type 0 where
  pub after : List ℕ
  pub written : write_at b.buffer b.write_index bytes ≡ some after
  pub same_size : length after ≡ length b.buffer
  pub holds :
      Holds (record b { buffer = after; write_index = b.write_index + length bytes }) (s ++ bytes)

module _ {b : Buffer} {s : List ℕ} (bytes : List ℕ) (h : Holds b s)
    (room : b.write_index + length bytes ≤ length b.buffer) where
  abbrev old : List ℕ
  old = take (length bytes) h.post

  abbrev rest : List ℕ
  rest = drop (length bytes) h.post

  length-old : length bytes ≡ length old
  length-old = omega (arith, length-take (length bytes) h.post, length-Holds h, h.at_write, room)

  split : b.buffer ≡ (h.pre ++ s) ++ (old ++ rest)
  split =
      h.layout
      ∙ ap (λ (t : List ℕ). h.pre ++ (s ++ t)) (sym (take-append-drop (length bytes) h.post))
      ∙ sym (append_assoc h.pre s _)

  -- A write into free space that is there appends the bytes.
  pub write_at-Filled : Filled b s bytes
  write_at-Filled = record {
    after = h.pre ++ (s ++ (bytes ++ rest));
    written =
        ap (λ (xs : List ℕ). write_at xs b.write_index bytes) split
        ∙ write_at-middle (h.pre ++ s) old rest bytes b.write_index
            (omega (arith, h.at_write, length-append h.pre s)) length-old
        ∙ ap some (append_assoc h.pre s _);
    same_size = omega (
      arith,
      length-append h.pre (s ++ (bytes ++ rest)),
      length-append s (bytes ++ rest),
      length-append bytes rest,
      length-drop (length bytes) h.post,
      length-Holds h,
      h.at_write,
      room,
    );
    holds = record {
      pre = h.pre;
      post = rest;
      layout = ap (◌++◌ h.pre) (sym (append_assoc s bytes rest));
      at_read = h.at_read;
      at_write = omega (arith, h.at_write, length-append s bytes);
      headroom = h.headroom;
    };
  }

-- On a well-formed buffer `append` never fails, whether it has room, moves its bytes to the
-- front or grows, and the buffer then holds its unread bytes with the new ones behind them.
pub append-Holds :
    {b : Buffer} {s : List ℕ} (bytes : List ℕ)
    → Holds b s
    → (b' : Buffer) × (append b bytes ≡ some b') × Holds b' (s ++ bytes)
unfolding append
append-Holds {b} {s} bytes h =
    let g : HasRoom b s (length bytes) = ensure_writable_bytes-HasRoom h (length bytes) in
    let f : Filled g.grown s bytes = write_at-Filled bytes g.holds g.room in
    (
      record g.grown { buffer = f.after; write_index = g.grown.write_index + length bytes },
      rw (g.ensured, f.written),
      f.holds,
    )
