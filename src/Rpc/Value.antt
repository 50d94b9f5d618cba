-- ===== src/Rpc/Value.antt =====
-- `value_t` of rpc/Serializer.h: what a call comes back with.
pub mod Written
use matelib.Prelude.{ℕ, List, [], Option, none, some, ◌>>=◌, ◌==◌, if◌then◌else◌}
use matelib.Rpc.Serializer.{
  Serializer, output_obj, output_string, input_obj, input_string, Item, scalar, text, input_item,
}

-- `RpcStateCode`
abbrev pub success : ℕ
success = 0

abbrev pub function_notbind : ℕ
function_notbind = 1

abbrev pub recv_timeout : ℕ
recv_timeout = 2

pub record Value : Type 0 where
  pub state_code : ℕ
  pub message : List ℕ
  pub value : Item

-- The default constructor: the value is `raw`, what its memory holds or the empty string.
abbrev pub fresh : Item → Value
fresh raw = record { state_code = success; message = []; value = raw }

-- `out << val`
pub write_value : Serializer → Value → Option Serializer
write_value out val = do
  s ← input_obj out 4 val.state_code
  s' ← input_string s val.message
  input_item s' val.value

-- `in >> obj` for an object that exists.
pub output_item : Serializer → Item → Option (Item × Serializer)
output_item s (scalar w obj) = do (v, s') ← output_obj s w obj; some (scalar w v, s')
output_item s (text str) = do (str', s') ← output_string s str; some (text str', s')

-- `in >> val`
pub read_value : Serializer → Value → Option (Value × Serializer)
unfolding output_item
read_value s val = do
  (code, s₁) ← output_obj s 4 val.state_code
  (message, s₂) ← output_string s₁ val.message
  let val' = record val { state_code = code; message = message }
  if code == success
      then (do (v, s₃) ← output_item s₂ val'.value; some (record val' { value = v }, s₃))
      else some (val', s₂)
