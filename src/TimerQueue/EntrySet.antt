-- ===== src/TimerQueue/EntrySet.antt =====
-- `std::set<std::pair<Timestamp, Timer*>>`, as the list of its elements in order.
use matelib.Prelude.{
  ℕ, ◌+◌, ◌≡◌, refl, Bool, true, false, ◌&&◌, ◌||◌, List, [], ◌∷◌, ◌++◌, arith, ltb, ◌==◌,
  if◌then◌else◌,
}

abbrev pub Entry : Type 0
Entry = ℕ × ℕ

-- `operator<` of the pair.
abbrev pub entry_lt : Entry → Entry → Bool
entry_lt (w, p) (v, q) = ltb w v || (w == v && ltb p q)

abbrev pub entry_eq : Entry → Entry → Bool
entry_eq (w, p) (v, q) = w == v && p == q

-- The set, and whether the entry was new.
unfoldable pub insert : Entry → List Entry → List Entry × Bool
insert e [] = (e ∷ [], true)
insert e (x ∷ xs) =
    let (ys, new) = insert e xs in
    if entry_lt e x
    then (e ∷ (x ∷ xs), true)
    else if entry_lt x e
    then (x ∷ ys, new)
    else (x ∷ xs, false)

unfoldable pub mem : Entry → List Entry → Bool
mem e [] = false
mem e (x ∷ xs) = entry_eq x e || mem e xs

unfoldable pub erase : Entry → List Entry → List Entry
erase e [] = []
erase e (x ∷ xs) = if entry_eq x e then xs else x ∷ erase e xs

-- The entries before `lower_bound(e)`, and those from it on.
unfoldable pub below : Entry → List Entry → List Entry
below e [] = []
below e (x ∷ xs) = if entry_lt x e then x ∷ below e xs else []

unfoldable pub from : Entry → List Entry → List Entry
from e [] = []
from e (x ∷ xs) = if entry_lt x e then from e xs else x ∷ xs

abbrev pub one_if : Bool → ℕ
one_if true = 1
one_if false = 0

-- How many entries point at `p`.
unfoldable pub uses : ℕ → List Entry → ℕ
uses p [] = 0
uses p ((w, q) ∷ es) = one_if (q == p) + uses p es

pub uses-insert :
    (w q p : ℕ) (es : List Entry)
    → uses q es ≡ 0
    → (uses p (insert (w, q) es).0 ≡ one_if (q == p) + uses p es) × ((insert (w, q) es).1 ≡ true)
unfolding uses insert
uses-insert w q p [] h = (refl, refl)
uses-insert w q p ((v, r) ∷ es) h = ground (arith, uses-insert w q p es)

pub uses-erase :
    (w q p : ℕ) (es : List Entry)
    → mem (w, q) es ≡ true
    → one_if (q == p) + uses p (erase (w, q) es) ≡ uses p es
unfolding uses erase mem
uses-erase w q p [] h = cc
uses-erase w q p ((v, r) ∷ es) h = ground (arith, uses-erase w q p es)

pub uses-split :
    (e : Entry) (p : ℕ) (es : List Entry) → uses p (below e es) + uses p (from e es) ≡ uses p es
unfolding uses below from
uses-split e p [] = refl
uses-split e p (x ∷ es) = ground (arith, uses-split e p es)

pub split-append : (e : Entry) (es : List Entry) → below e es ++ from e es ≡ es
unfolding below from
split-append e [] = refl
split-append e (x ∷ es) = ground (arith, split-append e es)

-- The first entry from a bound on does not stand below it.
pub from-head : (e x : Entry) (rest es : List Entry) → from e es ≡ x ∷ rest → entry_lt x e ≡ false
unfolding from
from-head e x rest [] h = cc
from-head e x rest (y ∷ es) h = ground (arith, from-head e x rest es)
