-- ===== src/LogStream/Tests.antt =====
-- The log stream's theorems at a buffer of 64 bytes.
use matelib.Prelude.{◌≡◌, arith}
use matelib.LogStream.{negsuc, convert_int}
use matelib.LogStream.Digits.{read_int, read_int-convert_int}

read_int-convert_int_example : read_int (convert_int (negsuc 41)) ≡ negsuc 41
read_int-convert_int_example = read_int-convert_int (negsuc 41) (omega arith)
