-- ===== src/TimerQueue/Ownership.antt =====
-- The objects of the timers of matelib/TimerQueue.cc and the entries that they stand in: adding
-- and cancelling.
use matelib.Prelude.{
  ℕ, ◌+◌, ◌≤◌, ◌<◌, ◌≡◌, refl, ap, ◌∙◌, ◌⊎◌, List, Option, none, some, arith, if◌then◌else◌,
  Bool-cases, inl, inr, ==_refl,
}
use matelib.TimerQueue.EntrySet.{Entry, insert, mem, erase, uses, uses-insert, uses-erase}
use matelib.TimerQueue.{
  Timer, Heap, write, TimerQueue, reset_timerfd, free, earliest_changed, add_timer_in_loop,
  add_timer, cancel_timer_in_loop, max_pointer,
}

abbrev pub one_if_live : Option Timer → ℕ
one_if_live none = 0
one_if_live (some t) = 1

-- `pending` are the expired entries that are still to be dealt with.
abbrev pub Owned : TimerQueue → List Entry → Type 0
Owned q pending = (p : ℕ) → uses p q.timers + uses p pending ≡ one_if_live (q.heap p)

live_of_one : (o : Option Timer) → one_if_live o ≡ 1 → (t : Timer) × (o ≡ some t)
live_of_one none h = absurd (omega arith)
live_of_one (some t) h = (t, refl)

dead_of_zero : (o : Option Timer) → o ≡ none → one_if_live o ≡ 0
dead_of_zero o h = ground arith

-- A timer with no object yet comes to stand in the set only.
add_timer_in_loop-Owned :
    (q : TimerQueue) (p now : ℕ) (t : Timer) (pending : List Entry)
    → q.heap p ≡ none
    → Owned q pending
    → let q₁ = record q { heap = write q.heap p (some t) } in
      (q' : TimerQueue) × (add_timer_in_loop q₁ p now ≡ some q') × Owned q' pending
unfolding add_timer_in_loop reset_timerfd
add_timer_in_loop-Owned q p now t pending fresh own =
    let q₁ : TimerQueue = record q { heap = write q.heap p (some t) } in
    let unused : uses p q.timers ≡ 0 = omega (arith, own p, dead_of_zero (q.heap p) fresh) in
    let q₂ : TimerQueue = record q₁ { timers = (insert (t.expiration, p) q.timers).0 } in
    (
      if earliest_changed q.timers t.expiration then reset_timerfd q₂ t.expiration now else q₂,
      rw (==_refl p, (uses-insert t.expiration p p q.timers unused).1) refl,
      λ r.
          ground
            (arith, own r, uses-insert t.expiration p r q.timers unused, dead_of_zero (q.heap r)),
    )

-- No object lies at `UINTPTR_MAX` or above.
abbrev pub InRange : Heap → Type 0
InRange h = (p : ℕ) → max_pointer ≤ p → h p ≡ none

-- The two invariants of the queue together.
pub record IsSafe (q : TimerQueue) (pending : List Entry) : Type 0 where
  pub owned : Owned q pending
  pub in_range : InRange q.heap

add_timer_in_loop-heap :
    (q q' : TimerQueue) (p now : ℕ) → add_timer_in_loop q p now ≡ some q' → q'.heap ≡ q.heap
unfolding add_timer_in_loop reset_timerfd
add_timer_in_loop-heap q q' p now e = ground arith

write-InRange :
    (h : Heap) (p : ℕ) (t : Timer) → p < max_pointer → InRange h → InRange (write h p (some t))
write-InRange h p t lt r k le = ground (arith, r k)

pub write-none-InRange : (h : Heap) (p : ℕ) → InRange h → InRange (write h p none)
write-none-InRange h p r k le = ground (arith, r k)

pub add_timer-IsSafe :
    (alloc : Heap → ℕ) (q : TimerQueue) (t : Timer) (now : ℕ) (pending : List Entry)
    → q.heap (alloc q.heap) ≡ none
    → alloc q.heap < max_pointer
    → IsSafe q pending
    → (id : Entry) × (q' : TimerQueue) × (add_timer alloc q t now ≡ some (id, q'))
      × IsSafe q' pending
      × (q'.heap ≡ write q.heap (alloc q.heap) (some t))
unfolding add_timer
add_timer-IsSafe alloc q t now pending free low s =
    let p = alloc q.heap in
    let (q', e, own) = add_timer_in_loop-Owned q p now t pending free s.owned in
    let same = add_timer_in_loop-heap (record q { heap = write q.heap p (some t) }) q' p now e in
    (
      (t.expiration, p),
      q',
      rw e,
      record {
        owned = own;
        in_range =
            λ k le. ap (λ (h : Heap). h k) same ∙ write-InRange q.heap p t low s.in_range k le;
      },
      same,
    )

-- An entry of the set or of the list has its object.
pub live_of_uses :
    (q : TimerQueue) (pending : List Entry) (p : ℕ)
    → Owned q pending
    → 1 ≤ uses p q.timers + uses p pending
    → (t : Timer) × (q.heap p ≡ some t)
live_of_uses q pending p own h = go (q.heap p) (own p)
  where
    go :
        (o : Option Timer)
        → uses p q.timers + uses p pending ≡ one_if_live o
        → (t : Timer) × (o ≡ some t)
    go none e = absurd (omega arith)
    go (some t) e = (t, refl)

pub cancel_timer_in_loop-IsSafe :
    (q : TimerQueue) (id : Entry) (pending : List Entry)
    → IsSafe q pending
    → (q' : TimerQueue) × (cancel_timer_in_loop q id ≡ some q')
      × IsSafe q' pending
      × ((q'.heap ≡ q.heap) ⊎ (q'.heap ≡ write q.heap id.1 none))
unfolding cancel_timer_in_loop
cancel_timer_in_loop-IsSafe q (when, p) pending s = elim (Bool-cases (mem (when, p) q.timers)) [
  | inl found ↦
      let used : 1 ≤ uses p q.timers + uses p pending =
        ground (arith, uses-erase when p p q.timers found) in
      let (t, live) = live_of_uses q pending p s.owned used in
      (
        record q { heap = write q.heap p none; timers = erase (when, p) q.timers },
        rw (found, live),
        record {
          owned =
              λ r. ground (arith, s.owned r, s.owned p, uses-erase when p r q.timers found, live);
          in_range = write-none-InRange q.heap p s.in_range;
        },
        inr refl,
      )
  | inr missing ↦ elim (Bool-cases q.calling_expired_timers) [
    | inl calling ↦ (
      record q { canceling_timers = (insert (when, p) q.canceling_timers).0 },
      rw (missing, calling),
      record { owned = s.owned; in_range = s.in_range },
      inl refl,
    )
    | inr idle ↦ (q, rw (missing, idle), s, inl refl)
  ]
]
