-- ===== src/Rpc/Exchange.antt =====
-- A call of rpc/RpcClient.h that rpc/RpcServer.cc answers, over a socket that carries the bytes of
-- the request to the server, and those of the answer to the client, and whose bytes have all arrived
-- when `readFd` takes as many of them as one `readv` does.
use matelib.Prelude.{
  ℕ, ◌<◌, ◌≤◌, ◌+◌, ap, ◌≡◌, refl, sym, ◌∙◌, false, List, [], ◌∷◌, ◌++◌, none, some, arith, length,
  length-append, ◌==◌, append-nil,
}
use mathlib.Core.Path.{subst}
use matelib.Prelude.Slices.{take_all}
use matelib.Buffer.{Buffer, writeable_bytes, read_fd, extra_size, one_read}
use matelib.Buffer.Contents.{Holds}
use matelib.Buffer.Whole.{read_fd-Holds}
use matelib.Rpc.Serializer.{
  ByteOrder, reverse_to_little_endian, Serializer, Item, scalar, text, object_bytes,
}
use matelib.Rpc.Serializer.Packed.{
  item_bytes, items_bytes, IsPackable, AllPackable, length-ordered, length-object_bytes,
  package_args-Extends,
}
use matelib.Rpc.Serializer.RoundTrip.{shapes, Gets}
use matelib.Rpc.Value.{Value, function_notbind, recv_timeout, fresh, read_value}
use matelib.Rpc.Value.Written.{fields, IsBlankFor, read_value-success, read_value-failed}
use matelib.Rpc.Server.{Function, Functions, not_bind_text, Handled, on_message}
use matelib.Rpc.Server.Answers.{request, returned, Sends, on_message-call, on_message-not_bound}
use matelib.Rpc.Client.{RpcClient, call}
use matelib.Rpc.Client.Timeout.{Comes, net_call-Comes, call-package_args}

-- One call and its answer: the request is read into `buf`, handled by the server, and its answer is
-- what the client reads. Both sides are left with nothing in their serializers and buffers.
pub record Exchanges (c : RpcClient) (name : List ℕ) (args : List Item) (raw : Item)
    (functions : Functions) (ds : Serializer) (buf : Buffer) (val : Value) : Type 0 where
  pub sent : List ℕ
  pub received : Buffer
  pub reads :
      read_fd buf (some (one_read (writeable_bytes buf) sent)) ≡ some (some (length sent), received)
  pub handled : Handled
  pub handles : on_message functions ds received ≡ some handled
  pub idle : Holds handled.serializer.stream_buffer [] × Holds handled.buffer []
  -- The client's read counts on no more room than that on the stack.
  pub comes :
      Comes c sent val (call c name args raw (some (length sent)) (some (one_read 0 handled.sent)))

answer_pos :
    (s : Serializer) (v : ℕ) (rest : List ℕ)
    → 0 < length (item_bytes s.byte_order (scalar 4 v) ++ rest)
answer_pos s v rest = omega (
  arith,
  length-append (item_bytes s.byte_order (scalar 4 v)) rest,
  length-ordered s.byte_order (object_bytes 4 v),
  length-object_bytes 4 v,
)

-- The answer to a name that is not bound, with the 6 bytes before its message.
not_bound_small :
    (o : ByteOrder) (message : List ℕ)
    → length message ≤ 65530
    → length (item_bytes o (scalar 4 function_notbind) ++ (item_bytes o (text message) ++ []))
      ≤ extra_size
not_bound_small o message h =
    let code = item_bytes o (scalar 4 function_notbind) in
    let mark = reverse_to_little_endian o (object_bytes 2 (length message)) in
    omega (
      arith,
      length-append code (item_bytes o (text message) ++ []),
      length-append (item_bytes o (text message)) [],
      length-append mark message,
      length-ordered o (object_bytes 4 function_notbind),
      length-object_bytes 4 function_notbind,
      length-ordered o (object_bytes 2 (length message)),
      length-object_bytes 2 (length message),
    )

module _ (c : RpcClient) (name : List ℕ) (args : List Item) (raw : Item) (functions : Functions)
    (ds : Serializer) (buf : Buffer) (alive : (c.state_code == recv_timeout) ≡ false)
    (ready : Holds c.serializer.stream_buffer []) (idle : Holds ds.stream_buffer [])
    (drained : Holds buf []) (same : c.serializer.byte_order ≡ ds.byte_order)
    (fits : AllPackable (request name args))
    (small : length (items_bytes c.serializer.byte_order (request name args)) ≤ extra_size) where
  -- What the server answers is what the client reads.
  exchange :
      (code : ℕ) (bytes left : List ℕ) (val : Value)
      → ((received : Buffer)
          → Holds received (items_bytes ds.byte_order (request name args))
          → Sends ds
              (item_bytes ds.byte_order (scalar 4 code) ++ bytes)
              (on_message functions ds received))
      → (val.state_code == recv_timeout) ≡ false
      → length (item_bytes ds.byte_order (scalar 4 code) ++ bytes) ≤ extra_size
      → ((s : Serializer)
          → Holds s.stream_buffer (item_bytes ds.byte_order (scalar 4 code) ++ bytes)
          → s.byte_order ≡ ds.byte_order
          → Gets s val left (read_value s (fresh raw)))
      → Exchanges c name args raw functions ds buf val
  exchange code bytes left val sends fine short reading =
      let (s₁, e₁, h₁, o₁) = package_args-Extends c.serializer [] (request name args) ready fits in
      let sent = items_bytes c.serializer.byte_order (request name args) in
      let (received, e₂, h₂) = read_fd-Holds sent drained in
      let request_held : Holds received (items_bytes ds.byte_order (request name args)) =
        subst (λ o. Holds received (items_bytes o (request name args))) same h₂ in
      let answered = sends received request_held in
      let more : 0 < length answered.handled.sent =
        rw (answered.sends) (answer_pos ds code bytes) in
      let came =
        net_call-Comes (record c { serializer = s₁ }) raw sent answered.handled.sent left val h₁
          alive more fine
          (λ s held order. reading s (rw answered.sends at held) (order ∙ o₁ ∙ same)) in
      record {
        sent = sent;
        received = received;
        reads =
            ap (λ (t : List ℕ). read_fd buf (some t))
              (take_all sent (writeable_bytes buf + extra_size) (omega arith))
            ∙ e₂;
        handled = answered.handled;
        handles = answered.returns;
        idle = (answered.cleared, answered.drained);
        comes = record {
          called = came.called;
          returns =
              ap (λ (t : List ℕ). call c name args raw (some (length sent)) (some t))
                (take_all answered.handled.sent (0 + extra_size) (rw answered.sends short))
              ∙ call-package_args c name args raw _ _ e₁
              ∙ came.returns;
          writes = came.writes;
          gives = came.gives;
          same_state = came.same_state;
          cleared = came.cleared;
          same_order = came.same_order ∙ o₁;
        };
      }

  -- A client whose calls have not timed out and a server of the same byte order, nothing
  -- unread in their serializers and in the server's input buffer, a name bound to a function,
  -- packable arguments of the function's types, and a packable result of the width that the
  -- client expects. The request has arrived at the server, and the answer at the client, as a
  -- whole when `readFd` is called, and each has at most 65536 bytes, what one read takes. Then
  -- the client writes the whole request and nothing else, `on_message` answers the bytes, and
  -- the client reads success with an empty message and exactly what the function returns for
  -- the arguments; both sides are left as they were for the next call.
  pub exchange-call :
      (func : Function)
      → functions name ≡ some func
      → shapes args ≡ func.params
      → IsPackable (func.call args)
      → IsBlankFor (func.call args) raw
      → length (items_bytes ds.byte_order (fields (returned (func.call args)))) ≤ extra_size
      → Exchanges c name args raw functions ds buf (returned (func.call args))
  exchange-call func bound typed fit blank answer_small =
      let val = returned (func.call args) in
      let packed : AllPackable (fields val) = (omega arith, ((refl, omega arith), (fit, tt))) in
      exchange 0 (items_bytes ds.byte_order (text [] ∷ (func.call args ∷ []))) [] val
        (λ received held.
          on_message-call functions func ds received name args [] bound idle
            (rw (append-nil (items_bytes ds.byte_order (request name args))) held) fits.0.1 fits.1
            typed fit)
        refl answer_small
        (λ s held order.
          read_value-success s val raw []
            (rw (append-nil (items_bytes s.byte_order (fields val)))
              (subst (λ o. Holds s.stream_buffer (items_bytes o (fields val))) (sym order) held))
            packed refl blank)

  -- In the same setting, but with a name that is not bound. The request has arrived at the
  -- server, and the answer at the client, as a whole when `readFd` is called, and each has at
  -- most 65536 bytes, what one read takes. Then the client comes back with the code of a
  -- function that is not bound, the server's message with the name, and the value that was in
  -- its memory; its state is as it was, and both sides are ready for the next call.
  pub exchange-not_bound :
      functions name ≡ none
      → length (not_bind_text ++ name) ≤ 65530
      → Exchanges c name args raw functions ds buf
          (record { state_code = function_notbind; message = not_bind_text ++ name; value = raw })
  exchange-not_bound missing short =
      let message = not_bind_text ++ name in
      exchange function_notbind (item_bytes ds.byte_order (text message) ++ []) []
        (record { state_code = function_notbind; message = message; value = raw })
        (λ received held.
          on_message-not_bound functions ds received name (items_bytes ds.byte_order args) missing
            idle held fits.0.0 (omega arith))
        refl (not_bound_small ds.byte_order message short)
        (λ s held order.
          read_value-failed s function_notbind message [] raw (rw (sym order) at held) (omega arith)
            (omega arith) refl)
