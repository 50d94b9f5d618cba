-- ===== src/AsyncLogging/Turn.antt =====
-- One turn of `AsyncLogging::threadFunc`: which buffers it writes and which become its spare
-- ones.
use matelib.Prelude.{
  ℕ, zero, suc, ◌+◌, ◌-◌, ◌≤◌, ◌<◌, ◌≡◌, refl, sym, ap, ◌∙◌, ◌⊎◌, inl, inr, true, false, List, [],
  ◌∷◌, ◌++◌, Option, none, some, arith, ltb, if◌then◌else◌, Bool-cases, length, length-append,
  length-take, min, take, append-nil,
}
use matelib.LogStream.{FixedBuffer, reset}
use matelib.AsyncLogging.{
  Front, AsyncLogging, is_null, is_fresh, or_else, left_over, all_contents, split_last, refill,
  thread_turn,
}
use matelib.AsyncLogging.Ready.{
  AllSized-append, IsFree, AllSized, IsReady, contents_of, pending, all_contents-append,
}

-- Both sides are ready: the file's thread has two spare buffers.
pub record IsWorking (s : AsyncLogging) : Type 0 where
  pub front : IsReady s.front
  pub first : IsFree s.front.buffer_size s.new_buffer1
  pub second : IsFree s.front.buffer_size s.new_buffer2

AllSized-take : (size n : ℕ) (bs : List FixedBuffer) → AllSized size bs → AllSized size (take n bs)
AllSized-take size zero bs a = tt
AllSized-take size (suc n) [] a = tt
AllSized-take size (suc n) (b ∷ bs) (a, rest) = (a, AllSized-take size n bs rest)

abbrev Last : ℕ → List FixedBuffer → Option (List FixedBuffer × FixedBuffer) → Type 0
Last size bs split =
    (front : List FixedBuffer) × (last : FixedBuffer) × (split ≡ some (front, last))
    × AllSized size front
    × (length last.bytes ≡ size)
    × (length bs ≡ suc (length front))

split_last-Last :
    (size : ℕ) (bs : List FixedBuffer)
    → AllSized size bs
    → 0 < length bs
    → Last size bs (split_last bs)
split_last-Last size [] a h = absurd (omega arith)
split_last-Last size (b ∷ []) (a, rest) h = ([], b, refl, tt, a, refl)
split_last-Last size (b ∷ (c ∷ cs)) (a, rest) h =
    let (front, last, e, sized, l, n) = split_last-Last size (c ∷ cs) rest (omega arith) in
    (b ∷ front, last, rw e, (a, sized), l, ap suc n)

refill-none :
    (size : ℕ) (bs : List FixedBuffer)
    → AllSized size bs
    → 0 < length bs
    → (b : FixedBuffer) × (rest : List FixedBuffer) × (refill none bs ≡ some (b, rest))
      × (b.cur ≡ 0)
      × (length b.bytes ≡ size)
      × AllSized size rest
      × (length bs ≡ suc (length rest))
unfolding refill reset
refill-none size bs a h =
    let (front, last, e, sized, l, n) = split_last-Last size bs a h in
    (record last { cur = 0 }, front, rw e, refl, l, sized, n)

-- The two spare buffers are refilled from those that have been written.
refill_both :
    (size : ℕ) (next second : Option FixedBuffer) (bs : List FixedBuffer)
    → AllSized size bs
    → 0 < length bs
    → IsFree size next ⊎ ((next ≡ none) × (1 < length bs))
    → IsFree size second
    → (b : FixedBuffer) × (c : FixedBuffer) × (rest : List FixedBuffer) × (rest' : List FixedBuffer)
      × (refill none bs ≡ some (b, rest))
      × (refill (left_over next second) rest ≡ some (c, rest'))
      × IsFree size (some b)
      × IsFree size (some c)
      × IsFree size (or_else next second)
unfolding refill
refill_both size none second bs a some_ (inl (x, e, _, _)) free = cc
refill_both size none second bs a some_ (inr (_, more)) free =
    let (b, rest, e, b0, bn, sized, n) = refill-none size bs a some_ in
    let (c, rest', f, c0, cn, _, _) = refill-none size rest sized (omega (arith, n, more)) in
    (b, c, rest, rest', e, f, (b, refl, b0, bn), (c, refl, c0, cn), free)
refill_both size (some x) second bs a some_ next (c, e, c0, cn) =
    let (b, rest, f, b0, bn, _, _) = refill-none size bs a some_ in
    (b, c, rest, rest, f, rw e, (b, refl, b0, bn), (c, refl, c0, cn), is_free next)
  where
    is_free : IsFree size (some x) ⊎ ((some x ≡ none) × (1 < length bs)) → IsFree size (some x)
    is_free (inl h) = h
    is_free (inr (h, _)) = cc

is_fresh-free : (size : ℕ) (ob : Option FixedBuffer) → IsFree size ob → is_fresh ob ≡ true
is_fresh-free size none (b, e, _, _) = cc
is_fresh-free size (some a) (b, e, empty, _) = ground arith

contents_of-free : (size : ℕ) (ob : Option FixedBuffer) → IsFree size ob → contents_of ob ≡ []
contents_of-free size none h = refl
contents_of-free size (some a) (b, e, empty, _) = rw nothing
  where
    nothing : a.cur ≡ 0
    nothing = cc

free-IsReady :
    (size : ℕ) (current next : Option FixedBuffer)
    → IsFree size current
    → IsFree size next
    → IsReady (record {
      buffer_size = size;
      current_buffer = current;
      next_buffer = next;
      full_buffers = [];
    })
free-IsReady size current next (b, e, empty, sized) free = record {
  current = b;
  at_current = e;
  inside = omega (arith, empty);
  size = sized;
  sizes = tt;
  next = inl free;
}

some_left : (xs : List FixedBuffer) → is_null xs ≡ false → 0 < length xs
some_left [] h = cc
some_left (x ∷ xs) h = omega arith

-- The buffers that are written.
abbrev to_write : List FixedBuffer → List FixedBuffer
to_write collected = if ltb 25 (length collected) then take 2 collected else collected

AllSized-to_write :
    (size : ℕ) (bs : List FixedBuffer) → AllSized size bs → AllSized size (take 2 (to_write bs))
AllSized-to_write size bs a = elim (Bool-cases (ltb 25 (length bs))) [
  | inl many ↦ rw many (AllSized-take size 2 (take 2 bs) (AllSized-take size 2 bs a))
  | inr few ↦ rw few (AllSized-take size 2 bs a)
]

length-to_write : (bs : List FixedBuffer) → length (take 2 (to_write bs)) ≡ min 2 (length bs)
length-to_write bs = elim (Bool-cases (ltb 25 (length bs))) [
  | inl many ↦ rw many (omega (arith, length-take 2 (take 2 bs), length-take 2 bs))
  | inr few ↦ rw few (length-take 2 bs)
]

few : (n d : ℕ) → d + (if ltb 25 n then n - 2 else 0) ≡ d → ltb 25 n ≡ false
few n d h = ground arith

-- With few buffers, all of them are written and there is no notice.
in_file :
    (log : List ℕ) (discard_text : ℕ → List ℕ) (bs : List FixedBuffer) (left all : List ℕ)
    → ltb 25 (length bs) ≡ false
    → left ≡ []
    → all_contents bs ≡ all
    → (log
          ++ ((if ltb 25 (length bs) then discard_text (length bs - 2) else [])
              ++ all_contents (to_write bs)))
        ++ left
      ≡ log ++ all
in_file log discard_text bs left all small gone e = rw (small, gone, e) (append-nil (log ++ all))

module _ (discard_text : ℕ → List ℕ) where
  -- The file's thread never finds a buffer gone. If it throws no buffer away, what was pending is
  -- in the file now, behind what was there.
  pub thread_turn-IsWorking :
      (s : AsyncLogging)
      → IsWorking s
      → (s' : AsyncLogging) × (thread_turn discard_text s ≡ some s')
        × IsWorking s'
        × (s'.front.buffer_size ≡ s.front.buffer_size)
        × (s.discarded ≤ s'.discarded)
        × (s'.discarded ≡ s.discarded → s'.log ++ pending s'.front ≡ s.log ++ pending s.front)
  unfolding thread_turn
  thread_turn-IsWorking s w =
      let f : Front = s.front in
      let r : IsReady f = w.front in
      let size = f.buffer_size in
      let collected = f.full_buffers ++ (r.current ∷ []) in
      let count : length collected ≡ length f.full_buffers + 1 =
        length-append f.full_buffers (r.current ∷ []) in
      let (b, c, rest, rest', e, e', bf, cf, nf) =
        refill_both size f.next_buffer s.new_buffer2 (take 2 (to_write collected))
          (AllSized-to_write size collected
            (AllSized-append size f.full_buffers r.current r.sizes r.size))
          (omega (arith, length-to_write collected, count))
          (elim r.next [
            | inl free ↦ inl free
            | inr (gone, full) ↦
                inr (gone, omega (arith, length-to_write collected, count, some_left _ full))
          ])
          w.second in
      let many = ltb 25 (length collected) in
      let extra : ℕ = if many then length collected - 2 else 0 in
      let notice : List ℕ = if many then discard_text (length collected - 2) else [] in
      (
        record {
          front = record {
            buffer_size = size;
            current_buffer = s.new_buffer1;
            next_buffer = or_else f.next_buffer s.new_buffer2;
            full_buffers = [];
          };
          new_buffer1 = some b;
          new_buffer2 = some c;
          log = s.log ++ (notice ++ all_contents (to_write collected));
          discarded = s.discarded + extra;
        },
        rw (
          is_fresh-free size s.new_buffer1 w.first,
          is_fresh-free size s.new_buffer2 w.second,
          r.at_current,
          e,
          e',
        ),
        record { front = free-IsReady size _ _ w.first nf; first = bf; second = cf },
        refl,
        omega arith,
        λ same.
            in_file s.log discard_text collected (contents_of s.new_buffer1) (pending f)
              (few (length collected) s.discarded same)
              (contents_of-free size s.new_buffer1 w.first)
              (all_contents-append f.full_buffers r.current
                ∙ ap (λ (ob : Option FixedBuffer). all_contents f.full_buffers ++ contents_of ob)
                    (sym r.at_current)),
      )
