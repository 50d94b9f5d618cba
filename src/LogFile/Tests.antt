-- ===== src/LogFile/Tests.antt =====
-- A file that takes three bytes at a time.
use matelib.Prelude.{ℕ, refl, [], arith, min}
use matelib.Prelude.Text.{codes}
use matelib.LogFile.{new_file, LogFile, Outside, append_unlocked}
use matelib.LogFile.Written.{TakesPart}
use matelib.LogFile.Names.{IsNamed}
use matelib.LogFile.Bounds.{IsBounded, append_unlocked-IsBounded}

abbrev three : ℕ → ℕ → ℕ
three k n = min n 3

three-TakesPart : TakesPart three
three-TakesPart k n = omega arith

abbrev file : LogFile
file = record {
  roll_size = 10;
  flush_interval = 3;
  start_of_period = 0;
  last_roll = 0;
  last_flush = 0;
  count = 0;
  file = new_file 0;
  closed = [];
  io_calls = 0;
}

abbrev outside : Outside
outside = record { check_time = 5; roll_time = 5; banner = codes "new" }

append_unlocked-IsBounded_example :
    IsBounded 13 (append_unlocked three file (codes "a longer line") outside)
    × IsNamed (append_unlocked three file (codes "a longer line") outside)
append_unlocked-IsBounded_example =
    append_unlocked-IsBounded three three-TakesPart 13 (codes "a longer line") outside (omega arith)
      file (record { counted = refl; current = omega arith; before = tt; checks = omega arith })
      (omega arith) (omega arith) tt
