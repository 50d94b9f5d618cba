-- ===== src/Rpc/Serializer.antt =====
-- rpc/Serializer.h: arguments packed one behind the other into a buffer, and unpacked again. The
-- machine is little endian, so an object of `w` bytes is the number that they write.
pub mod Packed
pub mod RoundTrip
use mathlib.Core.List.{reverse}
use matelib.Prelude.{
  ℕ, zero, suc, ◌+◌, ◌*◌, ◌/◌, ◌%◌, Bool, true, false, List, [], ◌∷◌, ◌++◌, Option, none, some,
  ◌>>=◌, ◌==◌, leb, if◌then◌else◌, length, take,
}
use matelib.Buffer.{
  Buffer, empty, copy, move, append, readable_bytes, retrieve, retrieve_all, peek, clear,
}

pub data ByteOrder : Type 0 where
  big_endian little_endian : ByteOrder

pub record Serializer : Type 0 where
  pub byte_order : ByteOrder
  pub stream_buffer : Buffer

-- The default constructor.
abbrev pub make : Serializer
make = record { byte_order = little_endian; stream_buffer = empty }

-- The constructor that copies a buffer, and the one that moves it.
pub of_buffer : Buffer → ByteOrder → Option Serializer
of_buffer buf order = do b ← copy buf; some (record { byte_order = order; stream_buffer = b })

pub of_moved : Buffer → ByteOrder → Serializer × Buffer
of_moved buf order =
    let (b, left) = move buf in (record { byte_order = order; stream_buffer = b }, left)

unfoldable pub reset : Serializer → Serializer
reset s = record s { stream_buffer = retrieve_all s.stream_buffer }

-- `retrieve(n)`
pub skip : Serializer → ℕ → Option Serializer
skip s n = do b ← retrieve s.stream_buffer n; some (record s { stream_buffer = b })

-- `append` on the stream buffer.
pub put : Serializer → List ℕ → Option Serializer
put s bytes = do b ← append s.stream_buffer bytes; some (record s { stream_buffer = b })

pub write_and_retrieve : Serializer → List ℕ → Option Serializer
unfolding put skip
write_and_retrieve s bytes = do s' ← put s bytes; skip s' (length bytes)

-- `streamBuffer_.clear(); reset();`
pub clear_all : Serializer → Option Serializer
unfolding reset
clear_all s = do b ← clear s.stream_buffer; some (reset (record s { stream_buffer = b }))

pub get_len_bytes : Serializer → ℕ → Option (List ℕ × Serializer)
unfolding skip
get_len_bytes s len = do let bytes = peek s.stream_buffer len; s' ← skip s len; some (bytes, s')

-- `reverse2LittleEndian`
abbrev pub reverse_to_little_endian : ByteOrder → List ℕ → List ℕ
reverse_to_little_endian big_endian bytes = reverse bytes
reverse_to_little_endian little_endian bytes = bytes

-- The bytes of an object of the machine, and the object of such bytes.
abbrev pub object_bytes : ℕ → ℕ → List ℕ
object_bytes zero v = []
object_bytes (suc w) v = (v % 256) ∷ object_bytes w (v / 256)

abbrev pub object_value : List ℕ → ℕ
object_value [] = 0
object_value (x ∷ xs) = x + 256 * object_value xs

-- `outputObj` for an object of `w` bytes: with too few bytes the object stays as it is.
pub output_obj : Serializer → ℕ → ℕ → Option (ℕ × Serializer)
unfolding skip
output_obj s w obj =
    if leb w (readable_bytes s.stream_buffer)
    then (do
      let bytes = peek s.stream_buffer w
      s' ← skip s w
      some (object_value (reverse_to_little_endian s.byte_order bytes), s'))
    else some (obj, s)

-- `outputObj` for a string: what is read is put before what the string holds.
pub output_string : Serializer → List ℕ → Option (List ℕ × Serializer)
unfolding skip
output_string s str = do
  let mark = peek s.stream_buffer 2
  s' ← skip s 2
  let len = object_value (reverse_to_little_endian s.byte_order mark)
  if len == 0
      then some (str, s')
      else (do let text = peek s'.stream_buffer len; s'' ← skip s' len; some (text ++ str, s''))

-- `inputObj` for an object of `w` bytes.
pub input_obj : Serializer → ℕ → ℕ → Option Serializer
unfolding put
input_obj s w obj = put s (reverse_to_little_endian s.byte_order (object_bytes w obj))

-- What `strlen` counts: the bytes before the first zero.
abbrev pub c_string : List ℕ → List ℕ
c_string [] = []
c_string (x ∷ xs) = if x == 0 then [] else x ∷ c_string xs

-- `inputObj` for a string: its length in 16 bits, and then so many bytes.
pub input_string : Serializer → List ℕ → Option Serializer
unfolding put
input_string s str = do
  let text = c_string str
  let len = length text % 65536
  s' ← put s (reverse_to_little_endian s.byte_order (object_bytes 2 len))
  if len == 0 then some s' else put s' (take len text)

-- An element of a tuple: an object of `w` bytes, or a string.
pub data Item : Type 0 where
  scalar : ℕ → ℕ → Item
  text : List ℕ → Item

pub data Shape : Type 0 where
  scalar_shape : ℕ → Shape
  text_shape : Shape

unfoldable pub input_item : Serializer → Item → Option Serializer
unfolding input_obj input_string
input_item s (scalar w v) = input_obj s w v
input_item s (text str) = input_string s str

-- `getv` into the element of a tuple that holds 0 or the empty string.
pub get_item : Serializer → Shape → Option (Item × Serializer)
unfolding output_obj output_string
get_item s (scalar_shape w) = do (v, s') ← output_obj s w 0; some (scalar w v, s')
get_item s text_shape = do (str, s') ← output_string s []; some (text str, s')

unfoldable pub package_args : Serializer → List Item → Option Serializer
package_args s [] = some s
package_args s (item ∷ items) = do s' ← input_item s item; package_args s' items

pub get_tuple : Serializer → List Shape → Option (List Item × Serializer)
get_tuple s [] = some ([], s)
get_tuple s (shape ∷ shapes) = do
  (item, s') ← get_item s shape
  (items, s'') ← get_tuple s' shapes
  some (item ∷ items, s'')
