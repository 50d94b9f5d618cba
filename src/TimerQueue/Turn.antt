-- ===== src/TimerQueue/Turn.antt =====
-- `handleRead` of matelib/TimerQueue.cc as a whole: the objects of the timers while the
-- callbacks run and the repeating timers are put back.
use matelib.Prelude.{
  ℕ, zero, suc, ◌+◌, ◌*◌, ◌≤◌, ◌≡◌, refl, ap, ◌⊎◌, inl, inr, true, false, not, ◌&&◌, List, [], ◌∷◌,
  none, some, arith, ◌==◌, Bool-cases, length, length-append,
}
use matelib.TimerQueue.EntrySet.{
  Entry, insert, mem, below, from, one_if, uses, uses-insert, uses-split, split-append, from-head,
}
use matelib.TimerQueue.{
  Heap, write, TimerQueue, reset_timerfd, max_pointer, end_is_later, get_expired, Action, adds,
  cancels, perform, run_expired, restart, reset_entry, reset_entries, rearm, reset, handle_read,
}
use matelib.TimerQueue.Allocator.{Allocator, adds_of, room_le}
use matelib.TimerQueue.Ownership.{
  IsSafe, add_timer-IsSafe, cancel_timer_in_loop-IsSafe, live_of_uses, write-none-InRange,
}

module _ {alloc : Heap → ℕ} (a : Allocator alloc) (callback : ℕ → List Action) where
  room_after :
      (n : ℕ) (h h' : Heap) (p : ℕ) → (h' ≡ h) ⊎ (h' ≡ write h p none) → a.room n h → a.room n h'
  room_after n h h' p (inl e) r = rw e r
  room_after n h h' p (inr e) r = rw e (a.freed n h p r)

  perform-IsSafe :
      (q : TimerQueue) (actions : List Action) (pending : List Entry) (n : ℕ)
      → IsSafe q pending
      → a.room (adds_of actions + n) q.heap
      → (q' : TimerQueue) × (perform alloc callback q actions ≡ some q')
        × IsSafe q' pending
        × a.room n q'.heap
  unfolding perform
  perform-IsSafe q [] pending n s r =
      let e : adds_of [] + n ≡ n = omega arith in (q, refl, s, rw e at r)
  perform-IsSafe q (adds t now ∷ actions) pending n s r =
      let k = adds_of actions + n in
      let one_more : adds_of (adds t now ∷ actions) + n ≡ suc k = omega arith in
      let r' : a.room (suc k) q.heap = rw one_more at r in
      let (id, q₁, e, s₁, h₁) =
        add_timer-IsSafe alloc q t now pending (a.is_free k q.heap r') (a.in_range k q.heap r') s in
      let (q₂, e₂, s₂, r₂) =
        perform-IsSafe q₁ actions pending n s₁ (rw h₁ (a.taken k q.heap t r')) in
      (q₂, rw e e₂, s₂, r₂)
  perform-IsSafe q (cancels id ∷ actions) pending n s r =
      let (q₁, e, s₁, h₁) = cancel_timer_in_loop-IsSafe q id pending s in
      let (q₂, e₂, s₂, r₂) =
        perform-IsSafe q₁ actions pending n s₁
          (room_after (adds_of actions + n) q.heap q₁.heap id.1 h₁ r) in
      (q₂, rw e e₂, s₂, r₂)

  -- The callbacks of all expired timers run, whatever they add or cancel.
  run_expired-IsSafe :
      (m : ℕ) (q : TimerQueue) (done : ℕ → ℕ) (es pending : List Entry)
      → ((cb : ℕ) → adds_of (callback cb) ≤ m)
      → ((p : ℕ) → uses p es + done p ≡ uses p pending)
      → IsSafe q pending
      → a.room (length es * m) q.heap
      → (q' : TimerQueue) × (run_expired alloc callback q es ≡ some q') × IsSafe q' pending
  unfolding run_expired uses
  run_expired-IsSafe m q done [] pending few h s r = (q, refl, s)
  run_expired-IsSafe m q done ((when, p) ∷ es) pending few h s r =
      let used : 1 ≤ uses p q.timers + uses p pending = ground (arith, h p) in
      let (t, live) = live_of_uses q pending p s.owned used in
      let acts = callback t.callback in
      let enough : adds_of acts + length es * m ≤ length ((when, p) ∷ es) * m =
        omega (arith, few t.callback) in
      let (q₁, e₁, s₁, r₁) =
        perform-IsSafe q acts pending (length es * m) s
          (room_le a _ (adds_of acts + length es * m) q.heap enough r) in
      let (q₂, e₂, s₂) =
        run_expired-IsSafe m q₁ (λ r. one_if (p == r) + done r) es pending few
          (λ r. omega (arith, h r)) s₁ r₁ in
      (q₂, rw (live, e₁) e₂, s₂)

-- A repeating timer goes back into the set, any other is deleted.
reset_entry-IsSafe :
    (q : TimerQueue) (when p now : ℕ) (es : List Entry)
    → IsSafe q ((when, p) ∷ es)
    → (q' : TimerQueue) × (reset_entry q (when, p) now ≡ some q') × IsSafe q' es
unfolding reset_entry uses
reset_entry-IsSafe q when p now es s =
    let used : 1 ≤ uses p q.timers + uses p ((when, p) ∷ es) = ground arith in
    let (t, live) = live_of_uses q ((when, p) ∷ es) p s.owned used in
    let unused : uses p q.timers ≡ 0 = ground (arith, s.owned p) in
    elim (Bool-cases (t.repeat && not (mem (when, p) q.canceling_timers))) [
      | inl back ↦ (
        record q {
          heap = write q.heap p (some (restart t now));
          timers = (insert (when, p) q.timers).0;
        },
        rw (live, back),
        record {
          owned = λ r. ground (arith, s.owned r, uses-insert when p r q.timers unused, live);
          in_range = λ k le. ground (arith, s.in_range k le, live);
        },
      )
      | inr gone ↦ (
        record q { heap = write q.heap p none },
        rw (live, gone),
        record {
          owned = λ r. ground (arith, s.owned r, unused);
          in_range = write-none-InRange q.heap p s.in_range;
        },
      )
    ]

reset_entries-IsSafe :
    (q : TimerQueue) (es : List Entry) (now : ℕ)
    → IsSafe q es
    → (q' : TimerQueue) × (reset_entries q es now ≡ some q') × IsSafe q' []
unfolding reset_entries
reset_entries-IsSafe q [] now s = (q, refl, s)
reset_entries-IsSafe q ((when, p) ∷ es) now s =
    let (q₁, e₁, s₁) = reset_entry-IsSafe q when p now es s in
    let (q₂, e₂, s₂) = reset_entries-IsSafe q₁ es now s₁ in (q₂, rw e₁ e₂, s₂)

rearm-IsSafe :
    (q : TimerQueue) (es : List Entry) (now : ℕ)
    → q.timers ≡ es
    → IsSafe q []
    → (q' : TimerQueue) × (rearm q es now ≡ some q') × IsSafe q' []
unfolding rearm reset_timerfd uses
rearm-IsSafe q [] now e s = (q, refl, s)
rearm-IsSafe q ((when, p) ∷ es) now e s =
    let used : 1 ≤ uses p q.timers + uses p [] = rw e (ground arith) in
    let (t, live) = live_of_uses q [] p s.owned used in
    (reset_timerfd q t.expiration now, rw live, record { owned = s.owned; in_range = s.in_range })

-- Let every timer object be in exactly one entry of the set or of the expired list, with no
-- object at `UINTPTR_MAX` or above. Then `reset` returns: it deletes or puts back the timer of
-- each expired entry and reads no freed one, and afterwards every object is in exactly one entry
-- of the set.
pub reset-IsSafe :
    (q : TimerQueue) (es : List Entry) (now later : ℕ)
    → IsSafe q es
    → (q' : TimerQueue) × (reset q es now later ≡ some q') × IsSafe q' []
unfolding reset
reset-IsSafe q es now later s =
    let (q₁, e₁, s₁) = reset_entries-IsSafe q es now s in
    let (q₂, e₂, s₂) = rearm-IsSafe q₁ q₁.timers later refl s₁ in (q₂, rw e₁ e₂, s₂)

-- Let every timer object be in exactly one entry of the set, with no object at `UINTPTR_MAX` or
-- above. Then `get_expired` passes its assert, touches no object, hands out no more entries than
-- the set has, and every object is in exactly one entry of the set or of the list handed out.
pub get_expired-IsSafe :
    (q : TimerQueue) (now : ℕ)
    → IsSafe q []
    → (es : List Entry) × (q' : TimerQueue) × (get_expired q now ≡ some (es, q'))
      × IsSafe q' es
      × (q'.heap ≡ q.heap)
      × (length es ≤ length q.timers)
unfolding get_expired uses
get_expired-IsSafe q now s = (
  below (now, max_pointer) q.timers,
  record q { timers = from (now, max_pointer) q.timers },
  rw (later (from (now, max_pointer) q.timers) refl),
  record {
    owned = λ p. omega (arith, s.owned p, uses-split (now, max_pointer) p q.timers);
    in_range = s.in_range;
  },
  refl,
  omega (
    arith,
    ap length (split-append (now, max_pointer) q.timers),
    length-append (below (now, max_pointer) q.timers) (from (now, max_pointer) q.timers),
  ),
)
  where
    later : (es : List Entry) → from (now, max_pointer) q.timers ≡ es → end_is_later es now ≡ true
    later [] e = refl
    later ((w, r) ∷ es) e =
        let head_uses : 1 ≤ uses r (from (now, max_pointer) q.timers) = rw e (ground arith) in
        let used : 1 ≤ uses r q.timers + uses r [] =
          omega (arith, head_uses, uses-split (now, max_pointer) r q.timers) in
        let (t, live) = live_of_uses q [] r s.owned used in
        ground (arith, from-head (now, max_pointer) (w, r) es q.timers e, s.in_range r, live)

-- Let every timer object be in exactly one entry of the set, with no object at `UINTPTR_MAX` or
-- above, let no callback add more than `m` timers, and let memory have room for `m` new objects
-- for each timer of the queue. Then `handle_read` returns: whatever the callbacks add and
-- cancel, no timer is freed twice, used after it was freed or lost, no assert fails, and
-- afterwards every object is in exactly one entry again.
pub handle_read-IsSafe :
    {alloc : Heap → ℕ} (a : Allocator alloc) (callback : ℕ → List Action) (m : ℕ) (q : TimerQueue)
    (now later : ℕ)
    → ((cb : ℕ) → adds_of (callback cb) ≤ m)
    → a.room (length q.timers * m) q.heap
    → IsSafe q []
    → (q' : TimerQueue) × (handle_read alloc callback q now later ≡ some q') × IsSafe q' []
unfolding handle_read
handle_read-IsSafe {alloc} a callback m q now later few room s =
    let (es, q₁, e₁, s₁, h₁, n₁) =
      get_expired-IsSafe (record q { canceling_timers = [] }) now
        (record { owned = s.owned; in_range = s.in_range }) in
    let enough : length es * m ≤ length q.timers * m =
      times_le (length es) (length q.timers) m n₁ in
    let (q₂, e₂, s₂) =
      run_expired-IsSafe a callback m (record q₁ { calling_expired_timers = true }) (λ p. 0) es es
        few (λ p. omega arith) (record { owned = s₁.owned; in_range = s₁.in_range })
        (rw h₁ (room_le a _ (length es * m) q.heap enough room)) in
    let (q₃, e₃, s₃) =
      reset-IsSafe (record q₂ { calling_expired_timers = false }) es now later
        (record { owned = s₂.owned; in_range = s₂.in_range }) in
    (q₃, rw (e₁, e₂) e₃, s₃)
  where
    times_le : (i j m : ℕ) → i ≤ j → i * m ≤ j * m
    times_le zero j m h = omega arith
    times_le (suc i) zero m h = absurd (omega arith)
    times_le (suc i) (suc j) m h = omega (arith, times_le i j m (omega arith))
