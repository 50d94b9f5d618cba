-- ===== src/Prelude/Fallible.antt =====
-- Steps that may stop: `none` is a failed assert, an access out of range or an abort.
use Prim.Native.Nat.{ℕ, ◌+◌, ◌-◌, ◌^◌, ◌≤◌, compare, Ordering}
use mathlib.Core.Path.{◌≡◌, refl}
use mathlib.Core.Bool.{Bool, true, false}
use mathlib.Core.Option.{Option, none, some}
use native.Mathlib.Omega.{arith}

infixl 5 ◌>>=◌ ◌>>◌
abbrev pub ◌>>=◌ {ℓ κ} : {A : Type ℓ} {B : Type κ} → Option A → (A → Option B) → Option B
none >>= f = none
some a >>= f = f a

pub bind_assoc {ℓ κ μ} :
    {A : Type ℓ} {B : Type κ} {C : Type μ} (m : Option A) (f : A → Option B) (g : B → Option C)
    → (m >>= λ a. f a >>= g) ≡ ((m >>= f) >>= g)
bind_assoc none f g = refl
bind_assoc (some a) f g = refl

pub bind_cong {ℓ κ} :
    {A : Type ℓ} {B : Type κ} (m : Option A) {f g : A → Option B}
    → ((a : A) → f a ≡ g a)
    → (m >>= f) ≡ (m >>= g)
bind_cong none h = refl
bind_cong (some a) h = h a

abbrev pub ◌>>◌ {ℓ} : {B : Type ℓ} → Option (Unit {0}) → Option B → Option B
m >> k = m >>= λ _. k

-- `assert(b)`
abbrev pub assert : Bool → Option (Unit {0})
assert true = some tt
assert false = none

-- `size_t` subtraction, which wraps below zero.
abbrev pub sub_size : ℕ → ℕ → ℕ
sub_size a b = elim (compare a b) [ Ordering.lt ↦ a + 2 ^ 64 - b | _ ↦ a - b ]

pub sub_size-eq : (a b : ℕ) → b ≤ a → sub_size a b ≡ a - b
sub_size-eq a b h = ground arith
