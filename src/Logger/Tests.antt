-- ===== src/Logger/Tests.antt =====
-- Two lines of one second.
use matelib.Prelude.{ℕ, List, [], ◌∷◌}
use matelib.Prelude.Text.{codes}
use matelib.LogStream.{text}
use matelib.Logger.{info, Line}

abbrev second : ℕ → List ℕ
second n = codes "2020.01.01-00:00:00"

abbrev line : Line
line = record {
  sec = 1000;
  usec = 42;
  tid = codes "77 ";
  level = info;
  file = codes "a/b.cc";
  line = 12;
  items = text (codes "hello") ∷ [];
}
