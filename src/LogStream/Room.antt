-- ===== src/LogStream/Room.antt =====
-- The room that the items of matelib/base/LogStream.h take in the buffer of a line.
use matelib.Prelude.{
  ◌>>=◌, bind_cong, bind_assoc, ℕ, ◌+◌, ◌≤◌, ◌<◌, ◌≡◌, refl, sym, ap, ◌∙◌, inl, inr, Bool, true,
  false, List, [], ◌∷◌, ◌++◌, Option, some, ◌>>=◌, arith, ltb, leb, ltb→lt, lt→ltb, leb→le, le→leb,
  Bool-cases, length, length-append, length-take, length-drop, take, drop, append-nil, append_assoc,
}
use matelib.Prelude.Slices.{write_at, take-append_left, take_all}
use matelib.Prelude.Text.{codes}
use matelib.LogStream.{
  FixedBuffer, avail, contents, append, convert_int, convert_hex, put_number, put_double, Item,
  boolean, char, integer, double_, pointer, text, null_text, bool_text, write, write_all,
}
use matelib.LogStream.Digits.{length-convert_int, length-convert_hex}

abbrev pub IsInside : FixedBuffer → Type 0
IsInside b = b.cur ≤ length b.bytes

-- The text `t` is behind the contents, and the buffer is as large as it was.
abbrev pub Adds : FixedBuffer → List ℕ → Option FixedBuffer → Type 0
Adds b t made =
    (b' : FixedBuffer) × (made ≡ some b')
    × IsInside b'
    × (contents b' ≡ contents b ++ t)
    × (length b'.bytes ≡ length b.bytes)

-- A write of `t` and `extra` bytes behind it, of which only `t` is counted.
Adds-written :
    (b : FixedBuffer) (t extra : List ℕ)
    → IsInside b
    → b.cur + length (t ++ extra) ≤ length b.bytes
    → Adds b t (do
      w ← write_at b.bytes b.cur (t ++ extra)
      some (record { bytes = w; cur = b.cur + length t }))
Adds-written b t extra inside room =
    let front = take b.cur b.bytes in
    let rest = drop (b.cur + length (t ++ extra)) b.bytes in
    let w = front ++ ((t ++ extra) ++ rest) in
    let at : length front ≡ b.cur = omega (arith, length-take b.cur b.bytes, inside) in
    let same : length w ≡ length b.bytes = omega (
      arith,
      at,
      room,
      length-append front ((t ++ extra) ++ rest),
      length-append (t ++ extra) rest,
      length-drop (b.cur + length (t ++ extra)) b.bytes,
    ) in
    let shape : w ≡ (front ++ t) ++ (extra ++ rest) =
      ap (◌++◌ front) (append_assoc t extra rest) ∙ sym (append_assoc front t (extra ++ rest)) in
    (
      record { bytes = w; cur = b.cur + length t },
      rw (le→leb _ _ room),
      omega (arith, same, room, length-append t extra),
      ap (take (b.cur + length t)) shape
          ∙ take-append_left (front ++ t) (extra ++ rest) (b.cur + length t)
              (omega (arith, at, length-append front t)),
      same,
    )

Adds-nothing : (b : FixedBuffer) → IsInside b → Adds b [] (some b)
Adds-nothing b inside = (b, refl, inside, sym (append-nil (contents b)), refl)

-- What an item adds: its text, if it has room.
abbrev pub kept : Bool → List ℕ → List ℕ
kept true t = t
kept false t = []

pub append-Adds :
    (b : FixedBuffer) (t : List ℕ)
    → IsInside b
    → Adds b (kept (ltb (length t) (avail b)) t) (append b t)
unfolding append
append-Adds b t inside = elim (Bool-cases (ltb (length t) (avail b))) [
  | inl room ↦
      let placed =
        Adds-written b t [] inside (omega (arith, ltb→lt _ _ room, length-append t [])) in
      rw room (rw (append-nil t) at placed)
  | inr full ↦ rw full (Adds-nothing b inside)
]

put_number-Adds :
    (b : FixedBuffer) (t : List ℕ)
    → IsInside b
    → length t < 32
    → Adds b (kept (leb 32 (avail b)) t) (put_number b t)
unfolding put_number
put_number-Adds b t inside short = elim (Bool-cases (leb 32 (avail b))) [
  | inl room ↦
      rw room (
        Adds-written b t (0 ∷ []) inside (omega (arith, leb→le _ _ room, length-append t (0 ∷ []))))
  | inr full ↦ rw full (Adds-nothing b inside)
]

put_double-Adds :
    (b : FixedBuffer) (t : List ℕ)
    → IsInside b
    → length t < 32
    → Adds b (kept (leb 32 (avail b)) t) (put_double b t)
unfolding put_double put_number
put_double-Adds b t inside short =
    rw (take_all t 31 (omega arith)) (put_number-Adds b t inside short)

-- The text of an item.
abbrev pub item_text : Item → List ℕ
item_text (boolean v) = bool_text v
item_text (char c) = c ∷ []
item_text (integer v) = convert_int v
item_text (double_ s) = s
item_text (pointer p) = codes "0x" ++ convert_hex p
item_text (text s) = s
item_text null_text = codes "(null)"

-- A number has room if 32 bytes are free, a text if it leaves a byte free.
abbrev pub has_room : FixedBuffer → Item → Bool
has_room b (integer v) = leb 32 (avail b)
has_room b (double_ s) = leb 32 (avail b)
has_room b (pointer p) = leb 32 (avail b)
has_room b (boolean v) = ltb (length (bool_text v)) (avail b)
has_room b (char c) = ltb 1 (avail b)
has_room b (text s) = ltb (length s) (avail b)
has_room b null_text = ltb 6 (avail b)

-- "%.12g" makes 31 characters or fewer.
abbrev pub IsShort : Item → Type 0
IsShort (double_ s) = length s < 32
IsShort _ = Unit {0}

-- For a buffer whose cursor is inside it, and with at most 31 characters for a double, every
-- `write` stays inside the buffer, whose size does not change, and adds the text of the item as
-- a whole if it has room for it, and nothing if not.
pub write-Adds :
    (b : FixedBuffer) (item : Item)
    → IsInside b
    → IsShort item
    → (b' : FixedBuffer) × (write b item ≡ some b')
      × IsInside b'
      × (contents b' ≡ contents b ++ kept (has_room b item) (item_text item))
      × (length b'.bytes ≡ length b.bytes)
unfolding write
write-Adds b (boolean v) inside short = append-Adds b (bool_text v) inside
write-Adds b (char c) inside short = append-Adds b (c ∷ []) inside
write-Adds b (integer v) inside short =
    put_number-Adds b (convert_int v) inside (omega (arith, length-convert_int v))
write-Adds b (double_ s) inside short = put_double-Adds b s inside short
write-Adds b (pointer p) inside short =
    put_number-Adds b (codes "0x" ++ convert_hex p) inside (omega (arith, length-convert_hex p))
write-Adds b (text s) inside short = append-Adds b s inside
write-Adds b null_text inside short = append-Adds b (codes "(null)") inside

abbrev pub all_texts : List Item → List ℕ
all_texts [] = []
all_texts (item ∷ items) = item_text item ++ all_texts items

abbrev pub AllShort : List Item → Type 0
AllShort [] = Unit {0}
AllShort (item ∷ items) = IsShort item × AllShort items

room-has_room :
    (b : FixedBuffer) (item : Item)
    → length (item_text item) + 32 ≤ avail b
    → has_room b item ≡ true
room-has_room b (integer v) h = le→leb _ _ (omega arith)
room-has_room b (double_ s) h = le→leb _ _ (omega arith)
room-has_room b (pointer p) h = le→leb _ _ (omega arith)
room-has_room b (boolean true) h = lt→ltb _ _ (omega arith)
room-has_room b (boolean false) h = lt→ltb _ _ (omega arith)
room-has_room b (char c) h = lt→ltb _ _ (omega arith)
room-has_room b (text s) h = lt→ltb _ _ (omega arith)
room-has_room b null_text h = lt→ltb _ _ (omega arith)

pub length-contents : (b : FixedBuffer) → IsInside b → length (contents b) ≡ b.cur
length-contents b inside = omega (arith, length-take b.cur b.bytes)

-- For a buffer whose cursor is inside it, and with at most 31 characters for each double: a
-- chain of writes whose texts together leave 32 bytes of the free space unused adds all the
-- texts, in order, and stays inside the buffer.
pub write_all-all_texts :
    (b : FixedBuffer) (items : List Item)
    → IsInside b
    → AllShort items
    → length (all_texts items) + 32 ≤ avail b
    → (b' : FixedBuffer) × (write_all b items ≡ some b')
      × IsInside b'
      × (contents b' ≡ contents b ++ all_texts items)
unfolding write_all
write_all-all_texts b [] inside short room = (b, refl, inside, sym (append-nil (contents b)))
write_all-all_texts b (item ∷ items) inside (s, short) room =
    let split = length-append (item_text item) (all_texts items) in
    let (b₁, e₁, i₁, c₁, n₁) = write-Adds b item inside s in
    let fits = room-has_room b item (omega arith) in
    let whole : contents b₁ ≡ contents b ++ item_text item =
      c₁ ∙ ap (λ (k : Bool). contents b ++ kept k (item_text item)) fits in
    let grown : b₁.cur ≡ b.cur + length (item_text item) = omega (
      arith,
      ap length whole,
      length-contents b inside,
      length-contents b₁ i₁,
      length-append (contents b) (item_text item),
    ) in
    let (b₂, e₂, i₂, c₂) =
      write_all-all_texts b₁ items i₁ short (omega (arith, split, grown, n₁, room)) in
    (
      b₂,
      rw e₁ e₂,
      i₂,
      c₂
          ∙ ap (λ (t : List ℕ). t ++ all_texts items) whole
          ∙ append_assoc (contents b) (item_text item) (all_texts items),
    )

-- A chain of writes, as one chain and another behind it.
pub write_all-append :
    (b : FixedBuffer) (xs ys : List Item)
    → write_all b (xs ++ ys) ≡ (write_all b xs >>= λ b'. write_all b' ys)
unfolding write_all
write_all-append b [] ys = refl
write_all-append b (x ∷ xs) ys =
    bind_cong (write b x) (λ b'. write_all-append b' xs ys)
    ∙ bind_assoc (write b x) (λ b'. write_all b' xs) (λ b'. write_all b' ys)
