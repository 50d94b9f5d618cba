-- ===== src/Buffer/Tests.antt =====
-- The buffer's theorems at a small buffer.
use matelib.Prelude.{◌≡◌, refl, [], ◌∷◌, ◌++◌, some, arith, replicate}
use matelib.Buffer.{Buffer, append, read_fd}
use matelib.Buffer.Contents.{Holds}
use matelib.Buffer.Grow.{append-Holds}
use matelib.Buffer.Whole.{read_fd-Holds}

-- Three unread bytes, and room for two more.
abbrev sample : Buffer
sample = record {
  buffer = replicate 8 0 ++ ((7 ∷ 8 ∷ 9 ∷ []) ++ (0 ∷ 0 ∷ []));
  read_index = 8;
  write_index = 11;
}

sample-Holds : Holds sample (7 ∷ 8 ∷ 9 ∷ [])
sample-Holds = record {
  pre = replicate 8 0;
  post = 0 ∷ 0 ∷ [];
  layout = refl;
  at_read = refl;
  at_write = refl;
  headroom = omega arith;
}

append-Holds_example :
    (b' : Buffer) × (append sample (1 ∷ 2 ∷ 3 ∷ []) ≡ some b')
    × Holds b' (7 ∷ 8 ∷ 9 ∷ 1 ∷ 2 ∷ 3 ∷ [])
append-Holds_example = append-Holds (1 ∷ 2 ∷ 3 ∷ []) sample-Holds

read_fd-Holds_example :
    (b' : Buffer) × (read_fd sample (some (1 ∷ 2 ∷ 3 ∷ [])) ≡ some (some 3, b'))
    × Holds b' (7 ∷ 8 ∷ 9 ∷ 1 ∷ 2 ∷ 3 ∷ [])
read_fd-Holds_example = read_fd-Holds (1 ∷ 2 ∷ 3 ∷ []) sample-Holds
