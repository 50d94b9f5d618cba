-- ===== src/Rpc/Tests.antt =====
-- A call of a function that adds two numbers, and calls that fail.
use matelib.Prelude.{ℕ, ◌+◌, ◌%◌, ◌^◌, refl, List, [], ◌∷◌, ◌++◌, none, some, arith}
use matelib.Prelude.Text.{codes}
use matelib.Buffer.{empty}
use matelib.Buffer.Whole.{empty-Holds, of_bytes-Holds}
use matelib.Rpc.Serializer.{make, Item, scalar, scalar_shape}
use matelib.Rpc.Serializer.Packed.{items_bytes}
use matelib.Rpc.Value.{recv_timeout, function_notbind}
use matelib.Rpc.Value.Written.{fields}
use matelib.Rpc.Server.{Function, Functions, unbound, bind, not_bind_text, on_message}
use matelib.Rpc.Server.Answers.{request, returned, Sends, on_message-call}
use matelib.Rpc.Client.{RpcClient, connected, net_call, call}
use matelib.Rpc.Client.Timeout.{Fails, read_end, net_call-Fails, call-timed_out}
use matelib.Rpc.Exchange.{Exchanges, exchange-call, exchange-not_bound}

abbrev sum : List Item → Item
sum (scalar v a ∷ (scalar w b ∷ [])) = scalar 4 ((a + b) % 2 ^ 32)
sum args = scalar 4 0

abbrev add : Function
add = record { params = scalar_shape 4 ∷ (scalar_shape 4 ∷ []); call = sum }

abbrev functions : Functions
functions = bind unbound (codes "add") add

abbrev two_and_three : List Item
two_and_three = scalar 4 2 ∷ (scalar 4 3 ∷ [])

exchange-call_example :
    Exchanges connected
      (codes "add")
      two_and_three
      (scalar 4 77)
      functions
      make
      empty
      (returned (scalar 4 5))
exchange-call_example =
    exchange-call connected (codes "add") two_and_three (scalar 4 77) functions make empty refl
      empty-Holds empty-Holds empty-Holds refl
      ((refl, omega arith), (omega arith, (omega arith, tt))) (omega arith) add refl refl
      (omega arith) (77, refl) (omega arith)

exchange-not_bound_example :
    Exchanges connected (codes "sub") two_and_three (scalar 4 77) functions make empty (record {
      state_code = function_notbind;
      message = not_bind_text ++ codes "sub";
      value = scalar 4 77;
    })
exchange-not_bound_example =
    exchange-not_bound connected (codes "sub") two_and_three (scalar 4 77) functions make empty refl
      empty-Holds empty-Holds empty-Holds refl
      ((refl, omega arith), (omega arith, (omega arith, tt))) (omega arith) refl (omega arith)

-- The call of `add`, and a second one behind it.
abbrev two_calls : List ℕ
two_calls =
    items_bytes make.byte_order (request (codes "add") two_and_three)
    ++ items_bytes make.byte_order (request (codes "add") two_and_three)

on_message-call_example :
    Sends make
      (items_bytes make.byte_order (fields (returned (scalar 4 5))))
      (on_message functions make (of_bytes-Holds two_calls).0)
on_message-call_example =
    on_message-call functions add make (of_bytes-Holds two_calls).0 (codes "add") two_and_three
      (items_bytes make.byte_order (request (codes "add") two_and_three)) refl empty-Holds
      (of_bytes-Holds two_calls).2 (omega arith) (omega arith, (omega arith, tt)) refl (omega arith)

net_call-Fails_example :
    Fails connected ([] ∷ []) [] (net_call connected (scalar 4 77) (some 0) (some []))
net_call-Fails_example = net_call-Fails connected (scalar 4 77) [] empty-Holds refl read_end

abbrev dead : RpcClient
dead = record connected { state_code = recv_timeout }

call-timed_out_example :
    Fails dead []
      (items_bytes make.byte_order (request (codes "add") two_and_three))
      (call dead (codes "add") two_and_three (scalar 4 77) none none)
call-timed_out_example =
    call-timed_out dead [] (codes "add") two_and_three (scalar 4 77) none none empty-Holds refl
      ((refl, omega arith), (omega arith, (omega arith, tt)))
