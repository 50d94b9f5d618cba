-- ===== src/LogStream/Digits.antt =====
-- `convertInt` and `convertHex` of matelib/base/LogStream.cc.
use mathlib.Core.List.{reverse, reverse-cons, reverse-append}
use matelib.Prelude.{
  length-reverse, ℕ, zero, suc, ◌+◌, ◌-◌, ◌*◌, ◌/◌, ◌%◌, ◌^◌, ◌≤◌, ◌<◌, ◌≡◌, refl, ap, ◌∙◌, inl,
  inr, true, List, [], ◌∷◌, ◌++◌, arith, ◌==◌, if◌then◌else◌, Bool-cases, length, length-append,
  get_or, append-nil, ==→eq,
}
use matelib.Prelude.Text.{codes, value_from, value_from-append}
use matelib.LogStream.{
  ℤ, pos, negsuc, neg, digits, digit_of, tenth, is_zero, digits_loop, convert_int, hex_loop,
  convert_hex,
}

abbrev pub magnitude : ℤ → ℕ
magnitude (pos n) = n
magnitude (negsuc m) = suc m

table :
    (d : ℕ) → d < 10 → (get_or digits (9 + d) 0 ≡ b'0' + d) × (get_or digits (9 - d) 0 ≡ b'0' + d)
table zero h = (refl, refl)
table (suc zero) h = (refl, refl)
table (suc (suc zero)) h = (refl, refl)
table (suc (suc (suc zero))) h = (refl, refl)
table (suc (suc (suc (suc zero)))) h = (refl, refl)
table (suc (suc (suc (suc (suc zero))))) h = (refl, refl)
table (suc (suc (suc (suc (suc (suc zero)))))) h = (refl, refl)
table (suc (suc (suc (suc (suc (suc (suc zero))))))) h = (refl, refl)
table (suc (suc (suc (suc (suc (suc (suc (suc zero)))))))) h = (refl, refl)
table (suc (suc (suc (suc (suc (suc (suc (suc (suc zero))))))))) h = (refl, refl)
table (suc (suc (suc (suc (suc (suc (suc (suc (suc (suc d)))))))))) h = absurd (omega arith)

digit_of-lem : (v : ℤ) → digit_of v ≡ b'0' + magnitude v % 10
digit_of-lem (pos n) = (table (n % 10) (omega arith)).0
digit_of-lem (negsuc m) = (table (suc m % 10) (omega arith)).1

magnitude-neg : (n : ℕ) → magnitude (neg n) ≡ n
magnitude-neg zero = refl
magnitude-neg (suc n) = refl

magnitude-tenth : (v : ℤ) → magnitude (tenth v) ≡ magnitude v / 10
magnitude-tenth (pos n) = refl
magnitude-tenth (negsuc m) = magnitude-neg (suc m / 10)

zero-magnitude : (v : ℤ) → is_zero v ≡ true → magnitude v ≡ 0
zero-magnitude (pos n) h = ==→eq n 0 h
zero-magnitude (negsuc m) h = cc

-- The value of digits in the order in which the loop makes them.
abbrev value_back : List ℕ → ℕ
value_back [] = 0
value_back (d ∷ ds) = (d - b'0') + 10 * value_back ds

value_back-digits_loop :
    (fuel : ℕ) (v : ℤ) → magnitude v < 10 ^ fuel → value_back (digits_loop fuel v) ≡ magnitude v
unfolding digits_loop
value_back-digits_loop zero v h = omega arith
value_back-digits_loop (suc fuel) v h = elim (Bool-cases (is_zero (tenth v))) [
  | inl last ↦
      rw last (omega (arith, digit_of-lem v, zero-magnitude (tenth v) last, magnitude-tenth v))
  | inr more ↦
      let rest = value_back-digits_loop fuel (tenth v) (omega (arith, magnitude-tenth v, h)) in
      rw more (omega (arith, digit_of-lem v, rest, magnitude-tenth v))
]

value_from-reverse : (ds : List ℕ) → value_from 0 (reverse ds) ≡ value_back ds
value_from-reverse [] = refl
value_from-reverse (d ∷ ds) =
    ap (value_from 0) (reverse-cons d ds)
    ∙ value_from-append 0 (reverse ds) (d ∷ [])
    ∙ omega (arith, value_from-reverse ds)

abbrev AllDigits : List ℕ → Type 0
AllDigits [] = Unit {0}
AllDigits (d ∷ ds) = (b'0' ≤ d) × AllDigits ds

AllDigits-append : (xs ys : List ℕ) → AllDigits xs → AllDigits ys → AllDigits (xs ++ ys)
AllDigits-append [] ys a b = b
AllDigits-append (x ∷ xs) ys (a, rest) b = (a, AllDigits-append xs ys rest b)

AllDigits-reverse : (xs : List ℕ) → AllDigits xs → AllDigits (reverse xs)
AllDigits-reverse [] a = tt
AllDigits-reverse (x ∷ xs) (a, rest) =
    rw (reverse-cons x xs)
      (AllDigits-append (reverse xs) (x ∷ []) (AllDigits-reverse xs rest) (a, tt))

AllDigits-digits_loop : (fuel : ℕ) (v : ℤ) → AllDigits (digits_loop fuel v)
unfolding digits_loop
AllDigits-digits_loop zero v = tt
AllDigits-digits_loop (suc fuel) v = elim (Bool-cases (is_zero (tenth v))) [
  | inl last ↦ rw last (omega (arith, digit_of-lem v), tt)
  | inr more ↦ rw more (omega (arith, digit_of-lem v), AllDigits-digits_loop fuel (tenth v))
]

length-digits_loop : (fuel : ℕ) (v : ℤ) → length (digits_loop fuel v) ≤ fuel
unfolding digits_loop
length-digits_loop zero v = omega arith
length-digits_loop (suc fuel) v = elim (Bool-cases (is_zero (tenth v))) [
  | inl last ↦ rw last (omega arith)
  | inr more ↦ rw more (omega (arith, length-digits_loop fuel (tenth v)))
]

length-hex_loop : (fuel v : ℕ) → length (hex_loop fuel v) ≤ fuel
unfolding hex_loop
length-hex_loop zero v = omega arith
length-hex_loop (suc fuel) v = elim (Bool-cases (v / 16 == 0)) [
  | inl last ↦ rw last (omega arith)
  | inr more ↦ rw more (omega (arith, length-hex_loop fuel (v / 16)))
]

-- A sign and 20 digits at most.
pub length-convert_int : (v : ℤ) → length (convert_int v) ≤ 21
unfolding convert_int
length-convert_int (pos n) = omega (
  arith,
  length-reverse (digits_loop 20 (pos n) ++ []),
  length-append (digits_loop 20 (pos n)) [],
  length-digits_loop 20 (pos n),
)
length-convert_int (negsuc m) = omega (
  arith,
  length-reverse (digits_loop 20 (negsuc m) ++ codes "-"),
  length-append (digits_loop 20 (negsuc m)) (codes "-"),
  length-digits_loop 20 (negsuc m),
)

pub length-convert_hex : (v : ℕ) → length (convert_hex v) ≤ 16
unfolding convert_hex
length-convert_hex v = omega (arith, length-reverse (hex_loop 16 v), length-hex_loop 16 v)

-- Reading a number: an optional sign, and digits.
abbrev pub read_int : List ℕ → ℤ
read_int [] = pos 0
read_int (c ∷ cs) = if c == b'-' then neg (value_from 0 cs) else pos (value_from 0 (c ∷ cs))

read_int-digits : (ds : List ℕ) → AllDigits ds → read_int ds ≡ pos (value_from 0 ds)
read_int-digits [] a = refl
read_int-digits (d ∷ ds) (a, rest) = ground arith

-- For every integer whose magnitude is below 10 ^ 20, and so for every 64-bit one, reading the
-- text that `convert_int` makes gives the integer back, its sign included.
pub read_int-convert_int : (v : ℤ) → magnitude v < 10 ^ 20 → read_int (convert_int v) ≡ v
unfolding convert_int
read_int-convert_int (pos n) h =
    let ds = digits_loop 20 (pos n) in
    ap (λ (t : List ℕ). read_int (reverse t)) (append-nil ds)
    ∙ read_int-digits (reverse ds) (AllDigits-reverse ds (AllDigits-digits_loop 20 (pos n)))
    ∙ ap pos (value_from-reverse ds ∙ value_back-digits_loop 20 (pos n) h)
read_int-convert_int (negsuc m) h =
    let ds = digits_loop 20 (negsuc m) in
    ap read_int (reverse-append ds (codes "-"))
    ∙ ap neg (value_from-reverse ds ∙ value_back-digits_loop 20 (negsuc m) h)
