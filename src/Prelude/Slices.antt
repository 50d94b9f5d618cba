-- ===== src/Prelude/Slices.antt =====
-- Ranges of bytes in memory, as lists: `std::copy` into place and `vector::resize`.
use Prim.Native.Nat.{ℕ, zero, suc, ◌+◌, ◌-◌, ◌≤◌}
use mathlib.Core.Path.{◌≡◌, refl, sym, ap, ◌∙◌}
use mathlib.Core.Logic.{◌≢◌, ◌⊎◌, inl, inr}
use mathlib.Core.Bool.{Bool, true, false, ◌&&◌, true≢false}
use mathlib.Core.List.{List, [], ◌∷◌, ◌++◌, append_assoc}
use mathlib.Core.Option.{Option, none, some}
use native.Mathlib.Omega.{arith}
use matelib.Prelude.Tests.{leb, le→leb, ◌==◌, if◌then◌else◌}
use matelib.Prelude.Lists.{length, take, drop, replicate, length-append}

-- The `n` elements from index `i` on.
abbrev pub slice {ℓ} : {A : Type ℓ} → List A → ℕ → ℕ → List A
slice xs i n = take n (drop i xs)

-- Writes `ys` from index `i` on. A write that leaves the storage is a fault.
abbrev pub write_at {ℓ} : {A : Type ℓ} → List A → ℕ → List A → Option (List A)
write_at xs i ys =
    if leb (i + length ys) (length xs)
    then some (take i xs ++ (ys ++ drop (i + length ys) xs))
    else none

-- `vector<char>::resize`
abbrev pub resize : List ℕ → ℕ → List ℕ
resize xs n = take n xs ++ replicate (n - length xs) 0

module _ {ℓ} {A : Type ℓ} where
  pub take-append_left : (xs ys : List A) (n : ℕ) → n ≡ length xs → take n (xs ++ ys) ≡ xs
  take-append_left [] ys zero h = refl
  take-append_left [] ys (suc n) h = absurd (omega arith)
  take-append_left (x ∷ xs) ys zero h = absurd (omega arith)
  take-append_left (x ∷ xs) ys (suc n) h = ap (◌∷◌ x) (take-append_left xs ys n (omega arith))

  pub drop-append_left : (xs ys : List A) (n : ℕ) → n ≡ length xs → drop n (xs ++ ys) ≡ ys
  drop-append_left [] ys zero h = refl
  drop-append_left [] ys (suc n) h = absurd (omega arith)
  drop-append_left (x ∷ xs) ys zero h = absurd (omega arith)
  drop-append_left (x ∷ xs) ys (suc n) h = drop-append_left xs ys n (omega arith)

  pub take-append_le : (xs ys : List A) (n : ℕ) → n ≤ length xs → take n (xs ++ ys) ≡ take n xs
  take-append_le xs ys zero h = refl
  take-append_le [] ys (suc n) h = absurd (omega arith)
  take-append_le (x ∷ xs) ys (suc n) h = ap (◌∷◌ x) (take-append_le xs ys n (omega arith))

  pub take_all : (xs : List A) (n : ℕ) → length xs ≤ n → take n xs ≡ xs
  take_all [] zero h = refl
  take_all [] (suc n) h = refl
  take_all (x ∷ xs) zero h = absurd (omega arith)
  take_all (x ∷ xs) (suc n) h = ap (◌∷◌ x) (take_all xs n (omega arith))

  pub drop_all : (xs : List A) (n : ℕ) → length xs ≤ n → drop n xs ≡ []
  drop_all [] zero h = refl
  drop_all [] (suc n) h = refl
  drop_all (x ∷ xs) zero h = absurd (omega arith)
  drop_all (x ∷ xs) (suc n) h = drop_all xs n (omega arith)

  -- A write inside the storage succeeds.
  pub write_at_inside :
      (xs : List A) (i : ℕ) (ys : List A)
      → i + length ys ≤ length xs
      → write_at xs i ys ≡ some (take i xs ++ (ys ++ drop (i + length ys) xs))
  write_at_inside xs i ys h =
      ap (λ (t : Bool). if t then some (take i xs ++ (ys ++ drop (i + length ys) xs)) else none)
        (le→leb (i + length ys) (length xs) h)

  pub drop-append_middle :
      (pre old post : List A) (n : ℕ)
      → n ≡ length pre + length old
      → drop n (pre ++ (old ++ post)) ≡ post
  drop-append_middle pre old post n h =
      ap (drop n) (sym (append_assoc pre old post))
      ∙ drop-append_left (pre ++ old) post n (omega (arith, length-append pre old))

  -- It replaces exactly the part that it writes over.
  pub write_at-middle :
      (pre old post ys : List A) (i : ℕ)
      → i ≡ length pre
      → length ys ≡ length old
      → write_at (pre ++ (old ++ post)) i ys ≡ some (pre ++ (ys ++ post))
  write_at-middle pre old post ys i hi hy =
      write_at_inside (pre ++ (old ++ post)) i ys
        (omega (arith, length-append pre (old ++ post), length-append old post))
      ∙ rw
          (
            take-append_left pre (old ++ post) i hi,
            drop-append_middle pre old post (i + length ys) (omega arith),
          )
          refl

  pub take-append_right :
      (pre xs : List A) (n i : ℕ) → n ≡ length pre + i → take n (pre ++ xs) ≡ pre ++ take i xs
  take-append_right [] xs n i h = ap (λ k. take k xs) {x = n} {y = i} (omega arith)
  take-append_right (p ∷ pre) xs zero i h = absurd (omega arith)
  take-append_right (p ∷ pre) xs (suc n) i h =
      ap (◌∷◌ p) (take-append_right pre xs n i (omega arith))

  pub drop-append_right :
      (pre xs : List A) (n i : ℕ) → n ≡ length pre + i → drop n (pre ++ xs) ≡ drop i xs
  drop-append_right [] xs n i h = ap (λ k. drop k xs) {x = n} {y = i} (omega arith)
  drop-append_right (p ∷ pre) xs zero i h = absurd (omega arith)
  drop-append_right (p ∷ pre) xs (suc n) i h = drop-append_right pre xs n i (omega arith)

  pub drop-append_le :
      (xs ys : List A) (n : ℕ) → n ≤ length xs → drop n (xs ++ ys) ≡ drop n xs ++ ys
  drop-append_le xs ys zero h = refl
  drop-append_le [] ys (suc n) h = absurd (omega arith)
  drop-append_le (x ∷ xs) ys (suc n) h = drop-append_le xs ys n (omega arith)

-- `std::equal` on bytes.
abbrev pub bytes_eq : List ℕ → List ℕ → Bool
bytes_eq [] [] = true
bytes_eq [] (y ∷ ys) = false
bytes_eq (x ∷ xs) [] = false
bytes_eq (x ∷ xs) (y ∷ ys) = x == y && bytes_eq xs ys

pub bytes_eq→eq : (xs ys : List ℕ) → bytes_eq xs ys ≡ true → xs ≡ ys
bytes_eq→eq [] [] h = refl
bytes_eq→eq [] (y ∷ ys) h = ground arith
bytes_eq→eq (x ∷ xs) [] h = ground arith
bytes_eq→eq (x ∷ xs) (y ∷ ys) h = ground (arith, bytes_eq→eq xs ys)

pub bytes_eq_refl : (xs : List ℕ) → bytes_eq xs xs ≡ true
bytes_eq_refl [] = refl
bytes_eq_refl (x ∷ xs) = ground (arith, bytes_eq_refl xs)

pub bytes_ne : (xs ys : List ℕ) → xs ≢ ys → bytes_eq xs ys ≡ false
bytes_ne xs ys h = by_test (bytes_eq xs ys) refl
  where
    by_test : (b : Bool) → bytes_eq xs ys ≡ b → b ≡ false
    by_test true e = absurd (h (bytes_eq→eq xs ys e))
    by_test false e = refl

pub bytes_eq_or_ne : (xs ys : List ℕ) → (xs ≡ ys) ⊎ (xs ≢ ys)
bytes_eq_or_ne xs ys = by_test (bytes_eq xs ys) refl
  where
    by_test : (b : Bool) → bytes_eq xs ys ≡ b → (xs ≡ ys) ⊎ (xs ≢ ys)
    by_test true e = inl (bytes_eq→eq xs ys e)
    by_test false e = inr (λ same. absurd (true≢false (sym (rw same (bytes_eq_refl ys)) ∙ e)))
