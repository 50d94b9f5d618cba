-- ===== src/Rpc/Serializer/Packed.antt =====
-- What the serializer of rpc/Serializer.h appends: the bytes of each item, as a sequence.
use mathlib.Core.List.{reverse-reverse}
use matelib.Prelude.{
  length-reverse, nil_of_length, ℕ, zero, suc, ◌/◌, ◌%◌, ◌^◌, ◌<◌, ◌≡◌, refl, sym, ap, ◌∙◌, inl,
  inr, List, [], ◌∷◌, ◌++◌, Option, some, arith, ◌==◌, ==→eq, Bool-cases, length, append-nil,
  append_assoc,
}
use matelib.Prelude.Slices.{take_all}
use matelib.Buffer.Contents.{Holds}
use matelib.Buffer.{retrieve_all}
use matelib.Buffer.Grow.{append-Holds}
use matelib.Buffer.Read.{retrieve_all-Holds}
use matelib.Buffer.Whole.{clear-Holds}
use matelib.Rpc.Serializer.{
  ByteOrder, big_endian, little_endian, Serializer, reset, put, clear_all, reverse_to_little_endian,
  object_bytes, object_value, input_obj, c_string, input_string, Item, scalar, text, input_item,
  package_args,
}

pub length-object_bytes : (w v : ℕ) → length (object_bytes w v) ≡ w
length-object_bytes zero v = refl
length-object_bytes (suc w) v = ap suc (length-object_bytes w (v / 256))

pub length-ordered :
    (o : ByteOrder) (xs : List ℕ) → length (reverse_to_little_endian o xs) ≡ length xs
length-ordered big_endian xs = length-reverse xs
length-ordered little_endian xs = refl

pub ordered_twice :
    (o : ByteOrder) (xs : List ℕ) → reverse_to_little_endian o (reverse_to_little_endian o xs) ≡ xs
ordered_twice big_endian xs = reverse-reverse xs
ordered_twice little_endian xs = refl

pub value-object_bytes : (w v : ℕ) → v < 256 ^ w → object_value (object_bytes w v) ≡ v
value-object_bytes zero v h = omega arith
value-object_bytes (suc w) v h =
    let front : v / 256 < 256 ^ w = omega arith in
    omega (arith, value-object_bytes w (v / 256) front)

-- What an item becomes: the bytes of an object, or a length in two bytes and that many bytes.
abbrev pub item_bytes : ByteOrder → Item → List ℕ
item_bytes o (scalar w v) = reverse_to_little_endian o (object_bytes w v)
item_bytes o (text str) = reverse_to_little_endian o (object_bytes 2 (length str)) ++ str

abbrev pub items_bytes : ByteOrder → List Item → List ℕ
items_bytes o [] = []
items_bytes o (item ∷ items) = item_bytes o item ++ items_bytes o items

-- The items that the format can carry: an object that fits its width, and a string without a zero
-- byte whose length fits 16 bits.
abbrev pub IsPackable : Item → Type 0
IsPackable (scalar w v) = v < 256 ^ w
IsPackable (text str) = (c_string str ≡ str) × (length str < 65536)

abbrev pub AllPackable : List Item → Type 0
AllPackable [] = Unit {0}
AllPackable (item ∷ items) = IsPackable item × AllPackable items

-- The serializer `s'` is `s` with `bytes` behind its contents.
abbrev pub Extends : Serializer → List ℕ → List ℕ → Option Serializer → Type 0
Extends s contents bytes made =
    (s' : Serializer) × (made ≡ some s')
    × Holds s'.stream_buffer (contents ++ bytes)
    × (s'.byte_order ≡ s.byte_order)

put-Extends :
    (s : Serializer) (contents bytes : List ℕ)
    → Holds s.stream_buffer contents
    → Extends s contents bytes (put s bytes)
unfolding put
put-Extends s contents bytes h =
    let (b, e, h') = append-Holds bytes h in (record s { stream_buffer = b }, rw e, h', refl)

pub input_obj-Extends :
    (s : Serializer) (contents : List ℕ) (w v : ℕ)
    → Holds s.stream_buffer contents
    → Extends s contents (item_bytes s.byte_order (scalar w v)) (input_obj s w v)
unfolding input_obj
input_obj-Extends s contents w v h = put-Extends s contents _ h

pub input_string-Extends :
    (s : Serializer) (contents str : List ℕ)
    → Holds s.stream_buffer contents
    → c_string str ≡ str
    → length str < 65536
    → Extends s contents (item_bytes s.byte_order (text str)) (input_string s str)
unfolding input_string
input_string-Extends s contents str h clean short =
    let fits : length str % 65536 ≡ length str = omega arith in
    let mark = reverse_to_little_endian s.byte_order (object_bytes 2 (length str)) in
    let (s₁, e₁, h₁, o₁) = put-Extends s contents mark h in
    let (s₂, e₂, h₂, o₂) = put-Extends s₁ (contents ++ mark) str h₁ in
    let joined : (contents ++ mark) ++ str ≡ contents ++ (mark ++ str) =
      append_assoc contents mark str in
    elim (Bool-cases (length str == 0)) [
      | inl empty ↦
          let nothing : (contents ++ mark) ++ str ≡ contents ++ mark =
            ap (◌++◌ (contents ++ mark)) (nil_of_length str (==→eq _ _ empty)) ∙ append-nil _ in
          (s₁, rw (clean, fits, e₁, empty), rw (sym joined ∙ nothing) h₁, o₁)
      | inr more ↦ (
        s₂,
        rw (clean, fits, e₁, more, take_all str (length str) (omega arith)) e₂,
        rw⁻¹ joined h₂,
        o₂ ∙ o₁,
      )
    ]

pub input_item-Extends :
    (s : Serializer) (contents : List ℕ) (item : Item)
    → Holds s.stream_buffer contents
    → IsPackable item
    → Extends s contents (item_bytes s.byte_order item) (input_item s item)
unfolding input_item
input_item-Extends s contents (scalar w v) h fits = input_obj-Extends s contents w v h
input_item-Extends s contents (text str) h (clean, short) =
    input_string-Extends s contents str h clean short

-- `packageArgs` appends the items one behind the other, and never fails.
pub package_args-Extends :
    (s : Serializer) (contents : List ℕ) (items : List Item)
    → Holds s.stream_buffer contents
    → AllPackable items
    → Extends s contents (items_bytes s.byte_order items) (package_args s items)
unfolding package_args
package_args-Extends s contents [] h fits = (s, refl, rw (append-nil contents) h, refl)
package_args-Extends s contents (item ∷ items) h (fit, fits) =
    let o = s.byte_order in
    let (s₁, e₁, h₁, o₁) = input_item-Extends s contents item h fit in
    let (s₂, e₂, h₂, o₂) = package_args-Extends s₁ _ items h₁ fits in
    let joined = same_order (contents ++ item_bytes o item) s₁.byte_order o o₁ items in
    (
      s₂,
      rw e₁ e₂,
      rw (joined ∙ append_assoc contents (item_bytes o item) (items_bytes o items)) at h₂,
      o₂ ∙ o₁,
    )
  where
    same_order :
        (xs : List ℕ) (o o' : ByteOrder)
        → o ≡ o'
        → (items : List Item) → xs ++ items_bytes o items ≡ xs ++ items_bytes o' items
    same_order xs o o' e items = rw e

-- `clear` leaves nothing unread, and fails on no well-formed buffer.
pub clear_all-Clears :
    (s : Serializer) {contents : List ℕ}
    → Holds s.stream_buffer contents
    → (s' : Serializer) × (clear_all s ≡ some s')
      × Holds s'.stream_buffer []
      × (s'.byte_order ≡ s.byte_order)
unfolding clear_all reset
clear_all-Clears s h =
    let (b, e, h') = clear-Holds h in
    (record s { stream_buffer = retrieve_all b }, rw e, retrieve_all-Holds h', refl)
