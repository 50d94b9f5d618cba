-- ===== src/Rpc/Server/Answers.antt =====
-- What `RpcServer::onMessage` of rpc/RpcServer.cc sends.
use matelib.Prelude.{
  ℕ, ◌<◌, ◌≡◌, refl, sym, ap, ◌∙◌, List, [], ◌∷◌, ◌++◌, Option, none, some, arith, append_assoc,
  append-nil, length,
}
use matelib.Buffer.{Buffer, swap}
use matelib.Buffer.Contents.{Holds, peek_all-Holds}
use matelib.Buffer.Whole.{swap-Holds}
use matelib.Rpc.Serializer.{Serializer, Item, scalar, text, c_string}
use matelib.Rpc.Serializer.Packed.{
  item_bytes, items_bytes, IsPackable, AllPackable, Extends, input_obj-Extends,
  input_string-Extends, clear_all-Clears,
}
use matelib.Rpc.Serializer.RoundTrip.{
  shapes, output_string-Gets, output_string_short, get_tuple-items_bytes,
}
use matelib.Rpc.Value.{Value, success, function_notbind}
use matelib.Rpc.Value.Written.{fields, write_value-Extends}
use matelib.Rpc.Server.{Function, Functions, callproxy, not_bind_text, Handled, answer, on_message}

-- The bytes of a call: the name of the function and the arguments.
abbrev pub request : List ℕ → List Item → List Item
request name args = text name ∷ args

-- The value that a successful call comes back with.
abbrev pub returned : Item → Value
returned ret = record { state_code = success; message = []; value = ret }

-- The fields of the answer for a name that is not bound.
abbrev pub not_bound : List ℕ → List Item
not_bound name = scalar 4 function_notbind ∷ (text (not_bind_text ++ name) ∷ [])

-- The answer `bytes` is sent, and the serializer and the buffer are left with nothing in them.
pub record Sends (ds : Serializer) (bytes : List ℕ) (made : Option Handled) : Type 0 where
  pub handled : Handled
  pub returns : made ≡ some handled
  pub sends : handled.sent ≡ bytes
  pub cleared : Holds handled.serializer.stream_buffer []
  pub drained : Holds handled.buffer []
  pub same_order : handled.serializer.byte_order ≡ ds.byte_order

callproxy-Extends :
    (func : Function) (ds : Serializer) (args : List Item) (rest : List ℕ)
    → Holds ds.stream_buffer (items_bytes ds.byte_order args ++ rest)
    → AllPackable args
    → shapes args ≡ func.params
    → IsPackable (func.call args)
    → Extends ds []
        (items_bytes ds.byte_order (fields (returned (func.call args))))
        (callproxy func ds)
unfolding callproxy
callproxy-Extends func ds args rest h fits typed fit =
    let (s₁, e₁, h₁, o₁) = get_tuple-items_bytes ds args rest h fits in
    let (s₂, e₂, h₂, o₂) = clear_all-Clears s₁ h₁ in
    let (s₃, e₃, h₃, o₃) =
      write_value-Extends s₂ [] (returned (func.call args)) h₂
        (omega arith, ((refl, omega arith), (fit, tt))) in
    (s₃, rw (sym typed, e₁, e₂) e₃, rw (o₂ ∙ o₁) at h₃, o₃ ∙ o₂ ∙ o₁)

not_bound-Extends :
    (name : List ℕ) (ds : Serializer) (rest : List ℕ)
    → Holds ds.stream_buffer rest
    → c_string name ≡ name
    → length (not_bind_text ++ name) < 65536
    → Extends ds [] (items_bytes ds.byte_order (not_bound name)) (answer none name ds)
unfolding answer
not_bound-Extends name ds rest h clean short =
    let o = ds.byte_order in
    let message = not_bind_text ++ name in
    let whole : c_string message ≡ message = ap (λ (t : List ℕ). not_bind_text ++ t) clean in
    let (s₁, e₁, h₁, o₁) = clear_all-Clears ds h in
    let (s₂, e₂, h₂, o₂) = input_obj-Extends s₁ [] 4 function_notbind h₁ in
    let (s₃, e₃, h₃, o₃) = input_string-Extends s₂ _ message h₂ whole short in
    (
      s₃,
      rw (e₁, e₂) e₃,
      rw (o₂ ∙ o₁, o₁, sym (append-nil (item_bytes o (text message)))) at h₃,
      o₃ ∙ o₂ ∙ o₁,
    )

module _ (functions : Functions) (ds : Serializer) (buf : Buffer) (name rest : List ℕ)
    (idle : Holds ds.stream_buffer [])
    (h : Holds buf (item_bytes ds.byte_order (text name) ++ rest))
    (short : length name < 65536) where
  -- `onMessage` sends what the branch for the name appends to a cleared serializer.
  on_message-Sends :
      (bytes : List ℕ)
      → ((ds₁ : Serializer)
          → Holds ds₁.stream_buffer rest
          → ds₁.byte_order ≡ ds.byte_order
          → Extends ds₁ [] bytes (answer (functions name) name ds₁))
      → Sends ds bytes (on_message functions ds buf)
  unfolding on_message
  on_message-Sends bytes answers =
      let (front, back) = swap-Holds idle h in
      let (s₁, e₁, h₁, o₁) =
        output_string-Gets (record ds { stream_buffer = (swap ds.stream_buffer buf).0 }) name rest
          front short in
      let (s₂, e₂, h₂, o₂) = answers s₁ h₁ o₁ in
      let (s₃, e₃, h₃, o₃) = clear_all-Clears s₂ h₂ in
      record {
        handled = record { sent = bytes; serializer = s₃; buffer = (swap ds.stream_buffer buf).1 };
        returns = rw (e₁, e₂, e₃, peek_all-Holds h₂);
        sends = refl;
        cleared = h₃;
        drained = back;
        same_order = o₃ ∙ o₂ ∙ o₁;
      }

-- The server's serializer has nothing unread, and its input buffer holds a call of a bound
-- function, with packable arguments of its types and a packable result, and any bytes behind the
-- call: `on_message` sends exactly one answer, success with the result, and leaves nothing in
-- the serializer and in the input buffer, so that the bytes behind the call are lost.
pub on_message-call :
    (functions : Functions) (func : Function) (ds : Serializer) (buf : Buffer) (name : List ℕ)
    (args : List Item) (rest : List ℕ)
    → functions name ≡ some func
    → Holds ds.stream_buffer []
    → Holds buf (items_bytes ds.byte_order (request name args) ++ rest)
    → length name < 65536
    → AllPackable args
    → shapes args ≡ func.params
    → IsPackable (func.call args)
    → Sends ds
        (items_bytes ds.byte_order (fields (returned (func.call args))))
        (on_message functions ds buf)
unfolding answer
on_message-call functions func ds buf name args rest bound idle h short fits typed fit =
    let o = ds.byte_order in
    on_message-Sends functions ds buf name (items_bytes o args ++ rest) idle
      (rw (append_assoc (item_bytes o (text name)) (items_bytes o args) rest) at h) short _
      (λ ds₁ h₁ o₁.
        rw bound (rw (sym o₁) (callproxy-Extends func ds₁ args rest (rw o₁ h₁) fits typed fit)))

pub on_message-not_bound :
    (functions : Functions) (ds : Serializer) (buf : Buffer) (name rest : List ℕ)
    → functions name ≡ none
    → Holds ds.stream_buffer []
    → Holds buf (item_bytes ds.byte_order (text name) ++ rest)
    → c_string name ≡ name
    → length (not_bind_text ++ name) < 65536
    → Sends ds (items_bytes ds.byte_order (not_bound name)) (on_message functions ds buf)
on_message-not_bound functions ds buf name rest missing idle h clean short =
    on_message-Sends functions ds buf name rest idle h (omega arith) _
      (λ ds₁ h₁ o₁. rw missing (rw (sym o₁) (not_bound-Extends name ds₁ rest h₁ clean short)))

-- Less than the two bytes of a length.
pub on_message-short :
    (functions : Functions) (ds : Serializer) (buf : Buffer) (bytes : List ℕ)
    → Holds ds.stream_buffer []
    → Holds buf bytes
    → length bytes < 2
    → on_message functions ds buf ≡ none
unfolding on_message
on_message-short functions ds buf bytes idle h short =
    let (front, _) = swap-Holds idle h in
    rw
      (output_string_short (record ds { stream_buffer = (swap ds.stream_buffer buf).0 }) bytes []
        front short)
      refl
