-- ===== src/Rpc/Serializer/RoundTrip.antt =====
-- Packing a tuple with rpc/Serializer.h and unpacking it again.
use matelib.Prelude.{
  nil_of_length, ℕ, ◌^◌, ◌≤◌, ◌<◌, ◌≡◌, refl, sym, ap, ◌∙◌, inl, inr, List, [], ◌∷◌, ◌++◌, Option,
  none, some, arith, ◌==◌, ==→eq, le→leb, Bool-cases, length, length-append, append-nil,
  append_assoc,
}
use matelib.Prelude.Slices.{take-append_left, drop-append_left}
use matelib.Buffer.{readable_bytes, peek}
use matelib.Buffer.Contents.{Holds, readable_bytes-Holds, peek-Holds}
use matelib.Buffer.Read.{retrieve-Holds, retrieve_beyond}
use matelib.Rpc.Serializer.{
  Serializer, skip, reverse_to_little_endian, object_bytes, object_value, output_obj, output_string,
  Item, scalar, text, Shape, scalar_shape, text_shape, get_item, package_args, get_tuple,
}
use matelib.Rpc.Serializer.Packed.{
  length-object_bytes, length-ordered, ordered_twice, value-object_bytes, item_bytes, items_bytes,
  IsPackable, AllPackable, package_args-Extends,
}

abbrev pub shape : Item → Shape
shape (scalar w v) = scalar_shape w
shape (text str) = text_shape

abbrev pub shapes : List Item → List Shape
shapes [] = []
shapes (item ∷ items) = shape item ∷ shapes items

-- The first `n` bytes are read and skipped.
reads :
    (s : Serializer) (n : ℕ) (bytes rest : List ℕ)
    → Holds s.stream_buffer (bytes ++ rest)
    → n ≡ length bytes
    → (peek s.stream_buffer n ≡ bytes)
      × (n ≤ readable_bytes s.stream_buffer)
      × (s' : Serializer) × (skip s n ≡ some s')
      × Holds s'.stream_buffer rest
      × (s'.byte_order ≡ s.byte_order)
unfolding skip
reads s n bytes rest h e =
    let bound : n ≤ length (bytes ++ rest) = omega (arith, length-append bytes rest) in
    let (b, r, h') = retrieve-Holds n h bound in
    (
      peek-Holds h n bound ∙ take-append_left bytes rest n e,
      omega (arith, bound, readable_bytes-Holds h),
      record s { stream_buffer = b },
      rw r,
      rw (drop-append_left bytes rest n e) at h',
      refl,
    )

-- What is read from the front of the serializer, and the serializer after it.
abbrev pub Gets {ℓ} : {A : Type ℓ} → Serializer → A → List ℕ → Option (A × Serializer) → Type ℓ
Gets {A = A} s a rest got =
    (s' : Serializer) × (got ≡ some (a, s'))
    × Holds s'.stream_buffer rest
    × (s'.byte_order ≡ s.byte_order)

-- The number at the front is read, whatever the object held before.
pub output_obj-Gets :
    (s : Serializer) (w v obj : ℕ) (rest : List ℕ)
    → Holds s.stream_buffer (item_bytes s.byte_order (scalar w v) ++ rest)
    → v < 256 ^ w
    → Gets s v rest (output_obj s w obj)
unfolding output_obj
output_obj-Gets s w v obj rest h fits =
    let bytes = item_bytes s.byte_order (scalar w v) in
    let (seen, enough, s', e, h', o) =
      reads s w bytes rest h
        (sym (length-ordered s.byte_order (object_bytes w v) ∙ length-object_bytes w v)) in
    (
      s',
      rw (
        le→leb _ _ enough,
        e,
        seen,
        ordered_twice s.byte_order (object_bytes w v),
        value-object_bytes w v fits,
      ),
      h',
      o,
    )

-- The string at the front is read into an empty one.
pub output_string-Gets :
    (s : Serializer) (str rest : List ℕ)
    → Holds s.stream_buffer (item_bytes s.byte_order (text str) ++ rest)
    → length str < 65536
    → Gets s str rest (output_string s [])
unfolding output_string
output_string-Gets s str rest h short =
    let mark = reverse_to_little_endian s.byte_order (object_bytes 2 (length str)) in
    let (seen, _, s₁, e₁, h₁, o₁) =
      reads s 2 mark (str ++ rest) (rw (append_assoc mark str rest) at h)
        (sym (length-ordered s.byte_order (object_bytes 2 (length str)))) in
    let (seen₂, _, s₂, e₂, h₂, o₂) = reads s₁ (length str) str rest h₁ refl in
    let value : object_value (object_bytes 2 (length str)) ≡ length str =
      value-object_bytes 2 (length str) (omega arith) in
    elim (Bool-cases (length str == 0)) [
      | inl empty ↦
          let nothing = nil_of_length str (==→eq _ _ empty) in
          (
            s₁,
            rw (e₁, seen, ordered_twice s.byte_order (object_bytes 2 (length str)), value, empty)
                (ap (λ (t : List ℕ). some (t, s₁)) (sym nothing)),
            rw nothing at h₁,
            o₁,
          )
      | inr more ↦ (
        s₂,
        rw (
          e₁,
          seen,
          ordered_twice s.byte_order (object_bytes 2 (length str)),
          value,
          more,
          e₂,
          seen₂,
          append-nil str,
        ),
        h₂,
        o₂ ∙ o₁,
      )
    ]

-- Without the two bytes of a length, reading a string fails the assert of `retrieve`.
pub output_string_short :
    (s : Serializer) (bytes str : List ℕ)
    → Holds s.stream_buffer bytes
    → length bytes < 2
    → output_string s str ≡ none
unfolding output_string skip
output_string_short s bytes str h short = rw (retrieve_beyond 2 h short) refl

get_item-Gets :
    (s : Serializer) (item : Item) (rest : List ℕ)
    → Holds s.stream_buffer (item_bytes s.byte_order item ++ rest)
    → IsPackable item
    → Gets s item rest (get_item s (shape item))
unfolding get_item
get_item-Gets s (scalar w v) rest h fits =
    let (s', e, h', o) = output_obj-Gets s w v 0 rest h fits in (s', rw e, h', o)
get_item-Gets s (text str) rest h (clean, short) =
    let (s', e, h', o) = output_string-Gets s str rest h short in (s', rw e, h', o)

-- `getTuple` reads the items that stand at the front of the buffer, and leaves the rest of it.
pub get_tuple-items_bytes :
    (s : Serializer) (items : List Item) (rest : List ℕ)
    → Holds s.stream_buffer (items_bytes s.byte_order items ++ rest)
    → AllPackable items
    → Gets s items rest (get_tuple s (shapes items))
unfolding get_tuple
get_tuple-items_bytes s [] rest h fits = (s, refl, h, refl)
get_tuple-items_bytes s (item ∷ items) rest h (fit, fits) =
    let o = s.byte_order in
    let (s₁, e₁, h₁, o₁) =
      get_item-Gets s item (items_bytes o items ++ rest)
        (rw (append_assoc (item_bytes o item) (items_bytes o items) rest) at h) fit in
    let (s₂, e₂, h₂, o₂) = get_tuple-items_bytes s₁ items rest (rw o₁ h₁) fits in
    (s₂, rw (e₁, e₂), h₂, o₂ ∙ o₁)

-- With nothing unread in the serializer, either byte order, and a tuple whose numbers fit their
-- widths and whose strings have no zero byte and fewer than 65536 bytes: `package_args`
-- succeeds, `get_tuple` with the shapes of the elements gives the tuple back, and nothing is
-- left unread.
pub get_tuple-package_args :
    (s : Serializer) (items : List Item)
    → Holds s.stream_buffer []
    → AllPackable items
    → (s₁ : Serializer) × (s₂ : Serializer) × (package_args s items ≡ some s₁)
      × (get_tuple s₁ (shapes items) ≡ some (items, s₂))
      × Holds s₂.stream_buffer []
get_tuple-package_args s items h fits =
    let (s₁, e₁, h₁, o₁) = package_args-Extends s [] items h fits in
    let front : Holds s₁.stream_buffer (items_bytes s₁.byte_order items ++ []) =
      rw (append-nil (items_bytes s₁.byte_order items), o₁) h₁ in
    let (s₂, e₂, h₂, _) = get_tuple-items_bytes s₁ items [] front fits in (s₁, s₂, e₁, e₂, h₂)
