-- ===== src/Prelude/Text.antt =====
-- Texts as bytes, the decimal notation of `printf("%d")`, and a map from strings to strings.
use Prim.Native.Char.{code}
use Prim.Native.String.{String}
use matelib.Prelude.{
  ℕ, zero, suc, ◌+◌, ◌-◌, ◌*◌, ◌/◌, ◌%◌, ◌^◌, ◌≤◌, ◌<◌, length, length-append, ltb→lt, lt→ltb, ◌≡◌,
  refl, Bool, true, false, List, [], ◌∷◌, ◌++◌, Option, none, some, arith, ltb, ◌==◌, if◌then◌else◌,
  ◌≢◌, sym, ◌∙◌, inl, inr, Bool-cases,
}
use matelib.Prelude.Slices.{bytes_eq, bytes_eq_refl, bytes_eq→eq, bytes_ne}

abbrev pub codes : String → List ℕ
codes String.[] = []
codes (String.◌∷◌ c s) = code c ∷ codes s

-- The digits of `n`, on fuel above `n`.
print_digits : ℕ → ℕ → List ℕ
print_digits zero n = []
print_digits (suc fuel) n =
    let front = print_digits fuel (n / 10) in
    if ltb n 10 then (b'0' + n) ∷ [] else front ++ ((b'0' + n % 10) ∷ [])

unfoldable pub decimal : ℕ → List ℕ
unfolding print_digits
decimal n = print_digits (suc n) n

-- The value of a run of digits.
abbrev pub value_from : ℕ → List ℕ → ℕ
value_from acc [] = acc
value_from acc (d ∷ ds) = value_from (acc * 10 + (d - b'0')) ds

pub value_from-append :
    (acc : ℕ) (xs ys : List ℕ) → value_from acc (xs ++ ys) ≡ value_from (value_from acc xs) ys
value_from-append acc [] ys = refl
value_from-append acc (x ∷ xs) ys = value_from-append (acc * 10 + (x - b'0')) xs ys

print_digits-value : (fuel n : ℕ) → n < fuel → value_from 0 (print_digits fuel n) ≡ n
unfolding print_digits
print_digits-value zero n h = absurd (omega arith)
print_digits-value (suc fuel) n h = ground (
  arith,
  print_digits-value fuel (n / 10),
  value_from-append 0 (print_digits fuel (n / 10)) ((b'0' + n % 10) ∷ []),
)

-- Reading a number back from its decimal notation gives the number.
pub value-decimal : (n : ℕ) → value_from 0 (decimal n) ≡ n
unfolding decimal
value-decimal n = print_digits-value (suc n) n (omega arith)

abbrev pub AllDigits : List ℕ → Type 0
AllDigits [] = Unit {0}
AllDigits (d ∷ ds) = ((b'0' ≤ d) × (d < b'0' + 10)) × AllDigits ds

AllDigits-append : (xs ys : List ℕ) → AllDigits xs → AllDigits ys → AllDigits (xs ++ ys)
AllDigits-append [] ys h k = k
AllDigits-append (x ∷ xs) ys (d, h) k = (d, AllDigits-append xs ys h k)

print_digits-AllDigits : (fuel n : ℕ) → AllDigits (print_digits fuel n)
unfolding print_digits
print_digits-AllDigits zero n = tt
print_digits-AllDigits (suc fuel) n = elim (Bool-cases (ltb n 10)) [
  | inl one ↦ rw one ((omega arith, omega (arith, ltb→lt n 10 one)), tt)
  | inr more ↦ rw more (
      AllDigits-append (print_digits fuel (n / 10)) ((b'0' + n % 10) ∷ [])
        (print_digits-AllDigits fuel (n / 10)) ((omega arith, omega arith), tt))
]

pub decimal-AllDigits : (n : ℕ) → AllDigits (decimal n)
unfolding decimal
decimal-AllDigits n = print_digits-AllDigits (suc n) n

length-print_digits : (fuel k n : ℕ) → n < 10 ^ suc k → length (print_digits fuel n) ≤ suc k
unfolding print_digits
length-print_digits zero k n h = omega arith
length-print_digits (suc fuel) zero n h = rw (lt→ltb n 10 (omega arith)) (omega arith)
length-print_digits (suc fuel) (suc k) n h = elim (Bool-cases (ltb n 10)) [
  | inl one ↦ rw one (omega arith)
  | inr more ↦ rw more (
      omega (
        arith,
        length-append (print_digits fuel (n / 10)) ((b'0' + n % 10) ∷ []),
        length-print_digits fuel k (n / 10) (omega arith),
      ))
]

-- A number of at most `k + 1` digits.
pub length-decimal : (k n : ℕ) → n < 10 ^ suc k → length (decimal n) ≤ suc k
unfolding decimal
length-decimal k n h = length-print_digits (suc n) k n h

-- `operator<` of `std::string`.
abbrev pub bytes_lt : List ℕ → List ℕ → Bool
bytes_lt xs [] = false
bytes_lt [] (y ∷ ys) = true
bytes_lt (x ∷ xs) (y ∷ ys) = if x == y then bytes_lt xs ys else ltb x y

-- `std::map<std::string, V>`, in the order of its keys.
abbrev pub MapOf {ℓ} : Type ℓ → Type ℓ
MapOf V = List (List ℕ × V)

abbrev pub StringMap : Type 0
StringMap = MapOf (List ℕ)

module _ {ℓ} {V : Type ℓ} where
  -- `m[k] = v`
  unfoldable pub insert : List ℕ → V → MapOf V → MapOf V
  insert k v [] = (k, v) ∷ []
  insert k v ((j, w) ∷ m) =
      if bytes_eq j k
      then (k, v) ∷ m
      else if bytes_lt k j
      then (k, v) ∷ ((j, w) ∷ m)
      else (j, w) ∷ insert k v m

  -- `m.find(k)`
  unfoldable pub find : List ℕ → MapOf V → Option V
  find k [] = none
  find k ((j, w) ∷ m) = if bytes_eq j k then some w else find k m

  -- `m.erase(k)`
  unfoldable pub erase : List ℕ → MapOf V → MapOf V
  erase k [] = []
  erase k ((j, w) ∷ m) = let rest = erase k m in if bytes_eq j k then rest else (j, w) ∷ rest

  pub find-insert_self : (k : List ℕ) (v : V) (m : MapOf V) → find k (insert k v m) ≡ some v
  unfolding find insert
  find-insert_self k v [] = ground (arith, bytes_eq_refl k)
  find-insert_self k v ((j, w) ∷ m) = ground (arith, bytes_eq_refl k, find-insert_self k v m)

  pub find-insert_ne :
      (k l : List ℕ) (v : V) (m : MapOf V) → k ≢ l → find l (insert k v m) ≡ find l m
  unfolding find insert
  find-insert_ne k l v [] h = rw (bytes_ne k l h)
  find-insert_ne k l v ((j, w) ∷ m) h = elim (Bool-cases (bytes_eq j k)) [
    | inl same ↦ rw (same, bytes_ne k l h, bytes_ne j l (λ e. h (sym (bytes_eq→eq j k same) ∙ e)))
    | inr other ↦ elim (Bool-cases (bytes_lt k j)) [
      | inl front ↦ rw (other, front, bytes_ne k l h)
      | inr behind ↦ rw (other, behind, find-insert_ne k l v m h)
    ]
  ]

  pub find-erase_self : (k : List ℕ) (m : MapOf V) → find k (erase k m) ≡ none
  unfolding find erase
  find-erase_self k [] = refl
  find-erase_self k ((j, w) ∷ m) = elim (Bool-cases (bytes_eq j k)) [
    | inl same ↦ rw (same, find-erase_self k m)
    | inr other ↦ rw (other, other, find-erase_self k m)
  ]

  pub find-erase_ne : (k l : List ℕ) (m : MapOf V) → k ≢ l → find l (erase k m) ≡ find l m
  unfolding find erase
  find-erase_ne k l [] h = refl
  find-erase_ne k l ((j, w) ∷ m) h = elim (Bool-cases (bytes_eq j k)) [
    | inl same ↦
        rw (same, bytes_ne j l (λ e. h (sym (bytes_eq→eq j k same) ∙ e)), find-erase_ne k l m h)
    | inr other ↦ rw (other, find-erase_ne k l m h)
  ]
