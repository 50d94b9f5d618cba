-- ===== src/AsyncLogging/Ready.antt =====
-- `AsyncLogging::append` of matelib/base/AsyncLogging.cc: which buffers are there to be used.
use matelib.Prelude.{
  ℕ, zero, suc, ◌<◌, ◌≡◌, refl, sym, ap, ◌∙◌, ◌⊎◌, inl, inr, Bool, true, false, List, [], ◌∷◌, ◌++◌,
  Option, none, some, arith, ltb, lt→ltb, Bool-cases, length, append-nil, append_assoc,
}
use matelib.LogStream.{FixedBuffer, make, avail, contents}
use matelib.LogStream.Room.{IsInside, kept, append-Adds}
use matelib.AsyncLogging.{Front, spare, append_line, is_null, all_contents}

-- A buffer of the given size that holds nothing.
abbrev pub IsFree : ℕ → Option FixedBuffer → Type 0
IsFree size ob = (b : FixedBuffer) × (ob ≡ some b) × (b.cur ≡ 0) × (length b.bytes ≡ size)

abbrev pub AllSized : ℕ → List FixedBuffer → Type 0
AllSized size [] = Unit {0}
AllSized size (b ∷ bs) = (length b.bytes ≡ size) × AllSized size bs

-- There is a current buffer; the next one is free, or it has been used and a full one is waiting.
pub record IsReady (f : Front) : Type 0 where
  pub current : FixedBuffer
  pub at_current : f.current_buffer ≡ some current
  pub inside : IsInside current
  pub size : length current.bytes ≡ f.buffer_size
  pub sizes : AllSized f.buffer_size f.full_buffers
  pub next :
      IsFree f.buffer_size f.next_buffer
      ⊎ ((f.next_buffer ≡ none) × (is_null f.full_buffers ≡ false))

-- The bytes that have been logged and not been given to the file.
abbrev pub contents_of : Option FixedBuffer → List ℕ
contents_of none = []
contents_of (some b) = contents b

abbrev pub pending : Front → List ℕ
pending f = all_contents f.full_buffers ++ contents_of f.current_buffer

pub AllSized-append :
    (size : ℕ) (xs : List FixedBuffer) (b : FixedBuffer)
    → AllSized size xs
    → length b.bytes ≡ size
    → AllSized size (xs ++ (b ∷ []))
AllSized-append size [] b a e = (e, tt)
AllSized-append size (x ∷ xs) b (a, rest) e = (a, AllSized-append size xs b rest e)

pub all_contents-append :
    (xs : List FixedBuffer) (b : FixedBuffer)
    → all_contents (xs ++ (b ∷ [])) ≡ all_contents xs ++ contents b
all_contents-append [] b = append-nil (contents b)
all_contents-append (x ∷ xs) b =
    ap (◌++◌ (contents x)) (all_contents-append xs b)
    ∙ sym (append_assoc (contents x) (all_contents xs) (contents b))

not_null : (xs : List FixedBuffer) (b : FixedBuffer) → is_null (xs ++ (b ∷ [])) ≡ false
not_null [] b = refl
not_null (x ∷ xs) b = refl

contents-empty : (b : FixedBuffer) → b.cur ≡ 0 → contents b ≡ []
contents-empty b e = rw e

length-replicate' : (n : ℕ) → length (make n).bytes ≡ n
length-replicate' zero = refl
length-replicate' (suc n) = ap suc (length-replicate' n)

-- The buffer that takes a full one's place is free.
spare-free :
    (size : ℕ) (next : Option FixedBuffer) (full : List FixedBuffer)
    → IsFree size next ⊎ ((next ≡ none) × (is_null full ≡ false))
    → ((spare size next).cur ≡ 0) × (length (spare size next).bytes ≡ size)
spare-free size none full h = (refl, length-replicate' size)
spare-free size (some b) full (inl (c, e, empty, sized)) = (cc, cc)
spare-free size (some b) full (inr (e, f)) = cc

-- A line that is shorter than a buffer is added as a whole.
abbrev pub Appended : Front → List ℕ → Option Front → Type 0
Appended f line made =
    (f' : Front) × (made ≡ some f')
    × IsReady f'
    × (pending f' ≡ pending f ++ line)
    × (f'.buffer_size ≡ f.buffer_size)

pub append_line-IsReady :
    (f : Front) (line : List ℕ)
    → IsReady f
    → length line < f.buffer_size
    → Appended f line (append_line f line)
unfolding append_line
append_line-IsReady f line r short = elim (Bool-cases (ltb (length line) (avail r.current))) [
  | inl room ↦
      let (b, e, inside, c, n) = append-Adds r.current line r.inside in
      let whole : contents b ≡ contents r.current ++ line =
        c ∙ ap (λ (k : Bool). contents r.current ++ kept k line) room in
      (
        record f { current_buffer = some b },
        rw (r.at_current, room, e),
        record {
          current = b;
          at_current = refl;
          inside = inside;
          size = n ∙ r.size;
          sizes = r.sizes;
          next = r.next;
        },
        rw r.at_current (
            ap (◌++◌ (all_contents f.full_buffers)) whole
            ∙ sym (append_assoc (all_contents f.full_buffers) (contents r.current) line)),
        refl,
      )
  | inr full ↦
      let s = spare f.buffer_size f.next_buffer in
      let (empty, sized) = spare-free f.buffer_size f.next_buffer f.full_buffers r.next in
      let (b, e, inside, c, n) = append-Adds s line (omega (arith, empty)) in
      let room : ltb (length line) (avail s) ≡ true =
        lt→ltb _ _ (omega (arith, empty, sized, short)) in
      let whole : contents b ≡ line =
        c
        ∙ ap (λ (k : Bool). contents s ++ kept k line) room
        ∙ ap (λ (t : List ℕ). t ++ line) (contents-empty s empty) in
      (
        record f {
          current_buffer = some b;
          next_buffer = none;
          full_buffers = f.full_buffers ++ (r.current ∷ []);
        },
        rw (r.at_current, full, e),
        record {
          current = b;
          at_current = refl;
          inside = inside;
          size = n ∙ sized;
          sizes = AllSized-append f.buffer_size f.full_buffers r.current r.sizes r.size;
          next = inr (refl, not_null f.full_buffers r.current);
        },
        rw r.at_current (
            ap (λ (t : List ℕ). t ++ contents b) (all_contents-append f.full_buffers r.current)
            ∙ ap (◌++◌ (all_contents f.full_buffers ++ contents r.current)) whole),
        refl,
      )
]
