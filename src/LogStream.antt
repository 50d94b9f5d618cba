-- ===== src/LogStream.antt =====
-- matelib/base/LogStream.h and matelib/base/LogStream.cc: the formatting of a log line into a
-- buffer of fixed size. A write behind the end of the buffer is a fault, `none`.
pub mod Digits
pub mod Room
mod Tests
use mathlib.Core.List.{reverse}
use matelib.Prelude.{
  ℕ, zero, suc, ◌+◌, ◌-◌, ◌/◌, ◌%◌, Bool, true, false, List, [], ◌∷◌, ◌++◌, Option, none, some,
  ◌>>=◌, ltb, leb, ◌==◌, if◌then◌else◌, length, take, replicate, get_or,
}
use matelib.Prelude.Slices.{write_at}
use matelib.Prelude.Text.{codes}

-- `data_` with its size, and `cur_` as an index of it.
pub record FixedBuffer : Type 0 where
  pub bytes : List ℕ
  pub cur : ℕ

-- `FixedBuffer<SIZE>()`, zeroed.
abbrev pub make : ℕ → FixedBuffer
make size = record { bytes = replicate size 0; cur = 0 }

abbrev pub avail : FixedBuffer → ℕ
avail b = length b.bytes - b.cur

abbrev pub contents : FixedBuffer → List ℕ
contents b = take b.cur b.bytes

unfoldable pub append : FixedBuffer → List ℕ → Option FixedBuffer
append b str =
    if ltb (length str) (avail b)
    then (do
      written ← write_at b.bytes b.cur str
      some (record { bytes = written; cur = b.cur + length str }))
    else some b

abbrev pub add : FixedBuffer → ℕ → FixedBuffer
add b len = record b { cur = b.cur + len }

unfoldable pub reset : FixedBuffer → FixedBuffer
reset b = record b { cur = 0 }

unfoldable pub bzero : FixedBuffer → FixedBuffer
bzero b = record b { bytes = replicate (length b.bytes) 0 }

-- A signed machine integer, by its value.
pub data ℤ : Type 0 where
  pos : ℕ → ℤ
  negsuc : ℕ → ℤ

abbrev pub neg : ℕ → ℤ
neg zero = pos 0
neg (suc n) = negsuc n

-- `zero[i % 10]`: the remainder has the sign of `i`, and the table is symmetric about `zero`.
abbrev pub digits : List ℕ
digits = codes "9876543210123456789"

abbrev pub digit_of : ℤ → ℕ
digit_of (pos n) = get_or digits (9 + n % 10) 0
digit_of (negsuc m) = get_or digits (9 - suc m % 10) 0

-- `i / 10`
abbrev pub tenth : ℤ → ℤ
tenth (pos n) = pos (n / 10)
tenth (negsuc m) = neg (suc m / 10)

abbrev pub is_zero : ℤ → Bool
is_zero (pos n) = n == 0
is_zero (negsuc m) = false

abbrev pub sign : ℤ → List ℕ
sign (pos n) = []
sign (negsuc m) = codes "-"

-- The loop of `convertInt`, on fuel: the digits from the last to the first.
pub digits_loop : ℕ → ℤ → List ℕ
digits_loop zero i = []
digits_loop (suc fuel) i =
    digit_of i ∷ elim (is_zero (tenth i)) [ true ↦ [] | false ↦ digits_loop fuel (tenth i) ]

-- `convertInt`. A 64-bit integer has at most 20 digits.
unfoldable pub convert_int : ℤ → List ℕ
unfolding digits_loop
convert_int v = reverse (digits_loop 20 v ++ sign v)

abbrev pub digits_hex : List ℕ
digits_hex = codes "0123456789ABCDEF"

pub hex_loop : ℕ → ℕ → List ℕ
hex_loop zero i = []
hex_loop (suc fuel) i =
    get_or digits_hex (i % 16) 0 ∷ elim (i / 16 == 0) [ true ↦ [] | false ↦ hex_loop fuel (i / 16) ]

-- `convertHex`. A 64-bit address has at most 16 digits.
pub convert_hex : ℕ → List ℕ
unfolding hex_loop
convert_hex v = reverse (hex_loop 16 v)

-- A number and the zero byte behind it, written at `current()`, and `add(len)`: only if 32 bytes
-- are free.
pub put_number : FixedBuffer → List ℕ → Option FixedBuffer
put_number b text =
    if leb 32 (avail b)
    then (do
      written ← write_at b.bytes b.cur (text ++ (0 ∷ []))
      some (add (record b { bytes = written }) (length text)))
    else some b

-- `snprintf` with a limit of 32 bytes: `text` is what "%.12g" makes of the number.
pub put_double : FixedBuffer → List ℕ → Option FixedBuffer
put_double b text =
    if leb 32 (avail b)
    then (do
      written ← write_at b.bytes b.cur (take 31 text ++ (0 ∷ []))
      some (add (record b { bytes = written }) (length text)))
    else some b

-- What is written with `<<`.
pub data Item : Type 0 where
  boolean : Bool → Item
  char : ℕ → Item
  integer : ℤ → Item
  double_ : List ℕ → Item
  pointer : ℕ → Item
  text : List ℕ → Item
  null_text : Item

abbrev pub bool_text : Bool → List ℕ
bool_text true = codes "true"
bool_text false = codes "false"

pub write : FixedBuffer → Item → Option FixedBuffer
unfolding put_number put_double convert_int convert_hex
write b (boolean v) = append b (bool_text v)
write b (char c) = append b (c ∷ [])
write b (integer v) = put_number b (convert_int v)
write b (double_ s) = put_double b s
write b (pointer p) = put_number b (codes "0x" ++ convert_hex p)
write b (text s) = append b s
write b null_text = append b (codes "(null)")

-- A chain of `<<`.
pub write_all : FixedBuffer → List Item → Option FixedBuffer
write_all b [] = some b
write_all b (item ∷ items) = do b' ← write b item; write_all b' items
