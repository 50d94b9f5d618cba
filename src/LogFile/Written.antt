-- ===== src/LogFile/Written.antt =====
-- The bytes that matelib/base/LogFile.cc gives to `fwrite_unlocked`, and those that it takes.
use matelib.Prelude.{
  ℕ, zero, suc, ◌+◌, ◌-◌, ◌≤◌, ◌<◌, ◌≡◌, refl, ap, inl, inr, List, ◌++◌, arith, ◌==◌, ne→==_false,
  Bool-cases, length, take, length-append, length-take, eq_or_ne,
}
use matelib.Prelude.Slices.{take_all}
use matelib.LogFile.{File, write_rest, append_file}

-- `fwrite` takes no more than it is given, and takes something while there is no error.
abbrev pub TakesPart : (ℕ → ℕ → ℕ) → Type 0
TakesPart fwrite = (k n : ℕ) → fwrite k n ≤ n

abbrev pub TakesSome : (ℕ → ℕ → ℕ) → Type 0
TakesSome fwrite = (k n : ℕ) → 0 < n → 0 < fwrite k n

-- The counter of a file is right.
abbrev pub IsCounted : File → Type 0
IsCounted f = f.written_bytes ≡ length f.content

module _ (fwrite : ℕ → ℕ → ℕ) (part : TakesPart fwrite) where
  write_rest-le : (fuel k remain : ℕ) → (write_rest fwrite fuel k remain).1 ≤ remain
  unfolding write_rest
  write_rest-le zero k remain = omega arith
  write_rest-le (suc fuel) k remain = elim (Bool-cases (remain == 0)) [
    | inl none_left ↦ rw none_left (omega arith)
    | inr left ↦ elim (Bool-cases (fwrite k remain == 0)) [
      | inl failed ↦ rw (left, failed) (omega arith)
      | inr took ↦
          rw (left, took)
            (omega (arith, part k remain, write_rest-le fuel (suc k) (remain - fwrite k remain)))
    ]
  ]

  module _ (some_taken : TakesSome fwrite) where
    -- As many calls are allowed as there are bytes.
    write_rest-all :
        (fuel k remain : ℕ) → remain ≤ fuel → (write_rest fwrite fuel k remain).1 ≡ remain
    unfolding write_rest
    write_rest-all zero k remain h = omega arith
    write_rest-all (suc fuel) k remain h = elim (eq_or_ne remain 0) [
      | inl none_left ↦ rw none_left refl
      | inr left ↦
          let more : 0 < fwrite k remain = some_taken k remain (omega arith) in
          rw
            (ne→==_false remain 0 left, ne→==_false (fwrite k remain) 0 (λ e. absurd (omega arith)))
            (omega (
              arith,
              part k remain,
              write_rest-all fuel (suc k) (remain - fwrite k remain) (omega arith),
            ))
    ]

    -- The whole line is taken.
    pub append_file_all :
        (k : ℕ) (f : File) (bytes : List ℕ)
        → ((append_file fwrite k f bytes).0.content ≡ f.content ++ bytes)
          × ((append_file fwrite k f bytes).0.written_bytes ≡ f.written_bytes + length bytes)
    unfolding append_file
    append_file_all k f bytes =
        let n = fwrite k (length bytes) in
        let m = (write_rest fwrite (length bytes) (suc k) (length bytes - n)).1 in
        let whole : n + m ≡ length bytes = omega (
          arith,
          part k (length bytes),
          write_rest-all (length bytes) (suc k) (length bytes - n) (omega arith),
        ) in
        (ap (◌++◌ f.content) (take_all bytes (n + m) (omega arith)), omega arith)

  -- Whatever is taken is counted.
  pub append_file-IsCounted :
      (k : ℕ) (f : File) (bytes : List ℕ)
      → IsCounted f
      → IsCounted (append_file fwrite k f bytes).0
        × ((append_file fwrite k f bytes).0.written_bytes ≤ f.written_bytes + length bytes)
  unfolding append_file
  append_file-IsCounted k f bytes h =
      let n = fwrite k (length bytes) in
      let m = (write_rest fwrite (length bytes) (suc k) (length bytes - n)).1 in
      let bound : n + m ≤ length bytes =
        omega
          (arith, part k (length bytes), write_rest-le (length bytes) (suc k) (length bytes - n)) in
      (
        omega (arith, h, length-append f.content (take (n + m) bytes), length-take (n + m) bytes),
        omega arith,
      )

-- A file keeps its name.
pub second-append_file :
    (fwrite : ℕ → ℕ → ℕ) (k : ℕ) (f : File) (bytes : List ℕ)
    → (append_file fwrite k f bytes).0.second ≡ f.second
unfolding append_file
second-append_file fwrite k f bytes = refl
