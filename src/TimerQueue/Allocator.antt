-- ===== src/TimerQueue/Allocator.antt =====
-- What the queue relies on `new` and `delete` for, and an allocator that keeps it.
use matelib.Prelude.{
  ℕ, zero, suc, ◌+◌, ◌≤◌, ◌<◌, ◌≡◌, ap, ◌∙◌, ◌⊎◌, inl, inr, true, false, List, [], ◌∷◌, none, some,
  arith, ◌==◌, ==→eq, Bool-cases, Option-cases,
}
use matelib.TimerQueue.{Timer, Heap, write, max_pointer, Action, adds, cancels}

-- With `room n h` the next `n` calls of `new` on the heap `h` succeed: each gives an address that
-- is not in use and is below `UINTPTR_MAX`, and leaves room for one call less. A `delete` and a
-- change of an object take no room.
pub record Allocator (alloc : Heap → ℕ) : Type 1 where
  pub room : ℕ → Heap → Type 0
  pub is_free : (n : ℕ) (h : Heap) → room (suc n) h → h (alloc h) ≡ none
  pub in_range : (n : ℕ) (h : Heap) → room (suc n) h → alloc h < max_pointer
  pub taken : (n : ℕ) (h : Heap) (t : Timer) → room (suc n) h → room n (write h (alloc h) (some t))
  pub freed : (n : ℕ) (h : Heap) (p : ℕ) → room n h → room n (write h p none)
  pub less : (n : ℕ) (h : Heap) → room (suc n) h → room n h

-- How many timers a callback adds.
abbrev pub adds_of : List Action → ℕ
adds_of [] = 0
adds_of (adds t now ∷ actions) = suc (adds_of actions)
adds_of (cancels id ∷ actions) = adds_of actions

module _ {alloc : Heap → ℕ} (a : Allocator alloc) where
  -- Room for more calls is room for fewer.
  pub room_le : (m n : ℕ) (h : Heap) → n ≤ m → a.room m h → a.room n h
  room_le zero n h le r = let e : n ≡ 0 = omega (arith, le) in rw e r
  room_le (suc m) n h le r = elim (Bool-cases (n == suc m)) [
    | inl e ↦ rw (==→eq n (suc m) e) r
    | inr e ↦ room_le m n h (ground (arith, le)) (a.less m h r)
  ]

-- An allocator that takes the first free address.
first_free : ℕ → ℕ → Heap → ℕ
first_free zero p h = p
first_free (suc fuel) p h = elim (h p) [ none ↦ p | some t ↦ first_free fuel (suc p) h ]

first_free-lem :
    (fuel p k : ℕ) (h : Heap)
    → p ≤ k
    → k < p + fuel
    → ((r : ℕ) → k ≤ r → h r ≡ none)
    → (h (first_free fuel p h) ≡ none) × (first_free fuel p h ≤ k)
unfolding first_free
first_free-lem zero p k h le lt free = absurd (omega arith)
first_free-lem (suc fuel) p k h le lt free = elim (Option-cases (h p)) [
  | inl e ↦
      let here : first_free (suc fuel) p h ≡ p = rw (first_free, e) in (ap h here ∙ e, rw here le)
  | inr (t, e) ↦
      rw (first_free, e)
        (first_free-lem fuel (suc p) k h (later t e (Bool-cases (p == k))) (omega arith) free)
]
  where
    later : (t : Timer) → h p ≡ some t → ((p == k) ≡ true) ⊎ ((p == k) ≡ false) → suc p ≤ k
    later t e (inl same) = let gone : h p ≡ none = rw (==→eq p k same) (free k (omega arith)) in cc
    later t e (inr other) = ground arith

unfoldable pub lowest : Heap → ℕ
unfolding first_free
lowest h = first_free max_pointer 0 h

-- All addresses from `k` on are free.
abbrev pub Free : ℕ → Heap → Type 0
Free n h = (k : ℕ) × (k + n ≤ max_pointer) × ((p : ℕ) → k ≤ p → h p ≡ none)

pub lowest-Free : (n : ℕ) (h : Heap) (f : Free (suc n) h) → (h (lowest h) ≡ none) × (lowest h ≤ f.0)
unfolding lowest
lowest-Free n h (k, le, free) = first_free-lem max_pointer 0 k h (omega arith) (omega arith) free

unfoldable pub lowest-Allocator : Allocator lowest
lowest-Allocator = record {
  room = Free;
  is_free = λ n h f. (lowest-Free n h f).0;
  in_range = λ n h f. omega (arith, (lowest-Free n h f).1, f.1);
  taken = λ n h t f.
      (suc f.0, omega (arith, f.1), λ p le. ground (arith, (lowest-Free n h f).1, f.2 p));
  freed = λ n h p f. (f.0, f.1, λ r le. ground (arith, f.2 r));
  less = λ n h f. (f.0, omega (arith, f.1), f.2);
}
