-- ===== src/Rpc/Value/Written.antt =====
-- A `value_t` of rpc/Serializer.h written and read again.
use matelib.Prelude.{
  ℕ, ◌^◌, ◌<◌, ◌≡◌, refl, ap, ◌∙◌, inl, inr, List, [], ◌∷◌, ◌++◌, Option, none, some, ◌>>=◌, ◌==◌,
  true, false, append-nil, append_assoc, length, Option-cases,
}
use matelib.Buffer.Contents.{Holds}
use matelib.Rpc.Serializer.{
  Serializer, Item, scalar, text, output_obj, output_string, input_item, package_args,
}
use matelib.Rpc.Serializer.Packed.{
  item_bytes, items_bytes, IsPackable, AllPackable, Extends, package_args-Extends,
}
use matelib.Rpc.Serializer.RoundTrip.{Gets, output_obj-Gets, output_string-Gets}
use matelib.Rpc.Value.{Value, success, fresh, write_value, output_item, read_value}

abbrev pub fields : Value → List Item
fields val = scalar 4 val.state_code ∷ (text val.message ∷ (val.value ∷ []))

-- The memory into which `item` can be read: a number of the same width, or the empty string.
abbrev pub IsBlankFor : Item → Item → Type 0
IsBlankFor (scalar w v) raw = (u : ℕ) × (raw ≡ scalar w u)
IsBlankFor (text str) raw = raw ≡ text []

bind-some {ℓ} : {A : Type ℓ} (m : Option A) → m ≡ (m >>= some)
bind-some none = refl
bind-some (some a) = refl

bind_last {ℓ} :
    {A : Type ℓ} (m : Option A) (f g : A → Option A)
    → (m >>= λ a. f a >>= g) ≡ (m >>= λ a. f a >>= λ b. g b >>= some)
bind_last none f g = refl
bind_last (some a) f g = elim (Option-cases (f a)) [
  | inl e ↦ rw e
  | inr (b, e) ↦ rw e (bind-some (g b))
]

write_value-package_args :
    (s : Serializer) (val : Value) → write_value s val ≡ package_args s (fields val)
unfolding write_value package_args input_item
write_value-package_args s val =
    bind_last (input_item s (scalar 4 val.state_code)) (λ a. input_item a (text val.message))
      (λ b. input_item b val.value)

-- A value is written as its code, its message and its value, one behind the other.
pub write_value-Extends :
    (s : Serializer) (contents : List ℕ) (val : Value)
    → Holds s.stream_buffer contents
    → AllPackable (fields val)
    → Extends s contents (items_bytes s.byte_order (fields val)) (write_value s val)
write_value-Extends s contents val h fits =
    let (s', e, rest, o) = package_args-Extends s contents (fields val) h fits in
    (s', write_value-package_args s val ∙ e, rest, o)

output_item-Gets :
    (s : Serializer) (item raw : Item) (rest : List ℕ)
    → Holds s.stream_buffer (item_bytes s.byte_order item ++ rest)
    → IsPackable item
    → IsBlankFor item raw
    → Gets s item rest (output_item s raw)
unfolding output_item
output_item-Gets s (scalar w v) raw rest h fits (u, blank) =
    let (s', e, h', o) = output_obj-Gets s w v u rest h fits in (s', rw (blank, e), h', o)
output_item-Gets s (text str) raw rest h (clean, short) blank =
    let (s', e, h', o) = output_string-Gets s str rest h short in (s', rw (blank, e), h', o)

-- The code and the message at the front.
module _ (s : Serializer) (code : ℕ) (message rest : List ℕ) (raw : Item)
    (h : Holds s.stream_buffer
      (item_bytes s.byte_order (scalar 4 code) ++ (item_bytes s.byte_order (text message) ++ rest)))
    (fits : code < 256 ^ 4) (short : length message < 65536) where
  code_read : Gets s code (item_bytes s.byte_order (text message) ++ rest) (output_obj s 4 success)
  code_read = output_obj-Gets s 4 code success _ h fits

  message_read : Gets code_read.0 message rest (output_string code_read.0 [])
  message_read = output_string-Gets code_read.0 message rest (rw code_read.3 code_read.2) short

  -- Of a value that is no success only the code and the message are read.
  pub read_value-failed :
      (code == success) ≡ false
      → Gets s
          (record { state_code = code; message = message; value = raw })
          rest
          (read_value s (fresh raw))
  unfolding read_value
  read_value-failed bad =
      let (s₁, e₁, h₁, o₁) = code_read in
      let (s₂, e₂, h₂, o₂) = message_read in (s₂, rw (e₁, e₂, bad) refl, h₂, o₂ ∙ o₁)

  -- Behind a success the value is read too.
  read_value-returned :
      (value : Item) (rest' : List ℕ)
      → (code == success) ≡ true
      → rest ≡ item_bytes s.byte_order value ++ rest'
      → IsPackable value
      → IsBlankFor value raw
      → Gets s
          (record { state_code = code; message = message; value = value })
          rest'
          (read_value s (fresh raw))
  unfolding read_value
  read_value-returned value rest' ok split fit blank =
      let (s₁, e₁, h₁, o₁) = code_read in
      let (s₂, e₂, h₂, o₂) = message_read in
      let (s₃, e₃, h₃, o₃) =
        output_item-Gets s₂ value raw rest' (rw (o₂ ∙ o₁) (rw split at h₂)) fit blank in
      (s₃, rw (e₁, e₂, ok, e₃), h₃, o₃ ∙ o₂ ∙ o₁)

-- A value of success that is at the front is read into a fresh one.
pub read_value-success :
    (s : Serializer) (val : Value) (raw : Item) (rest : List ℕ)
    → Holds s.stream_buffer (items_bytes s.byte_order (fields val) ++ rest)
    → AllPackable (fields val)
    → (val.state_code == success) ≡ true
    → IsBlankFor val.value raw
    → Gets s val rest (read_value s (fresh raw))
read_value-success s val raw rest h (fits, ((_, short), (fit, _))) ok blank =
    read_value-returned s val.state_code val.message _ raw (rw split at h) fits short val.value rest
      ok refl fit blank
  where
    split :
        items_bytes s.byte_order (fields val) ++ rest
        ≡ item_bytes s.byte_order (scalar 4 val.state_code)
          ++ (item_bytes s.byte_order (text val.message)
              ++ (item_bytes s.byte_order val.value ++ rest))
    split =
        append_assoc (item_bytes s.byte_order (scalar 4 val.state_code)) _ rest
        ∙ ap (◌++◌ (item_bytes s.byte_order (scalar 4 val.state_code))) (
            append_assoc (item_bytes s.byte_order (text val.message)) _ rest
            ∙ ap (λ (v : List ℕ). item_bytes s.byte_order (text val.message) ++ (v ++ rest))
                (append-nil (item_bytes s.byte_order val.value)))
