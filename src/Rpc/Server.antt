-- ===== src/Rpc/Server.antt =====
-- rpc/RpcServer.h and rpc/RpcServer.cc: the functions bound to names, and the answer to a call. What
-- a bound function does is a parameter of its entry.
pub mod Answers
use matelib.Prelude.{ℕ, List, [], ◌∷◌, ◌++◌, Option, none, some, ◌>>=◌, if◌then◌else◌}
use matelib.Prelude.Slices.{bytes_eq}
use matelib.Prelude.Text.{codes}
use matelib.Buffer.{Buffer, swap, peek, readable_bytes}
use matelib.Rpc.Serializer.{
  Serializer, clear_all, input_obj, input_string, output_string, get_tuple, Item, Shape,
}
use matelib.Rpc.Value.{Value, success, function_notbind, write_value}

-- A function of C++: the types of its arguments, and its result for arguments of these types.
pub record Function : Type 0 where
  pub params : List Shape
  pub call : List Item → Item

-- `functions_`
abbrev pub Functions : Type 0
Functions = List ℕ → Option Function

abbrev pub unbound : Functions
unbound name = none

-- `functions_[name] = ...`
abbrev pub bind : Functions → List ℕ → Function → Functions
bind functions name func = λ key. if bytes_eq key name then some func else functions key

-- `callproxyImpl`
pub callproxy : Function → Serializer → Option Serializer
callproxy func ds = do
  (args, ds₁) ← get_tuple ds func.params
  ds₂ ← clear_all ds₁
  let ret = func.call args
  write_value ds₂ (record { state_code = success; message = []; value = ret })

-- `"function not bind: "`
abbrev pub not_bind_text : List ℕ
not_bind_text = codes "function not bind: "

-- What `onMessage` leaves: the bytes given to `send`, the serializer and the connection's buffer.
pub record Handled : Type 0 where
  pub sent : List ℕ
  pub serializer : Serializer
  pub buffer : Buffer

-- The branches on `functions_.find(funcname)`.
pub answer : Option Function → List ℕ → Serializer → Option Serializer
unfolding callproxy
answer none funcname ds = do
  ds₁ ← clear_all ds
  ds₂ ← input_obj ds₁ 4 function_notbind
  input_string ds₂ (not_bind_text ++ funcname)
answer (some func) funcname ds = callproxy func ds

pub on_message : Functions → Serializer → Buffer → Option Handled
unfolding answer
on_message functions serializer buf = do
  let (stream, buf') = swap serializer.stream_buffer buf
  (funcname, ds) ← output_string (record serializer { stream_buffer = stream }) []
  ds' ← answer (functions funcname) funcname ds
  let sent = peek ds'.stream_buffer (readable_bytes ds'.stream_buffer)
  ds'' ← clear_all ds'
  some (record { sent = sent; serializer = ds''; buffer = buf' })
