-- ===== src/TimerQueue/Repeating.antt =====
-- A timer of matelib/TimerQueue.cc that repeats, over one `handleRead`.
use matelib.Prelude.{
  ℕ, ◌+◌, ◌≤◌, ◌<◌, ◌≡◌, true, false, List, [], ◌∷◌, some, arith, max, le→ltb_false, ==_refl, ◌≢◌,
}
use matelib.TimerQueue.EntrySet.{uses, uses-insert, Entry, entry_lt, insert, mem, below, from}
use matelib.TimerQueue.{
  Timer, Heap, write, TimerQueue, max_pointer, reset_timerfd, add_timer_in_loop, add_timer,
  get_expired, Action, perform, run_expired, restart, reset_entry, reset_entries, rearm, reset,
  handle_read,
}
use matelib.TimerQueue.Delay.{armed-reset_timerfd}

-- One timer that repeats, due, whose callback leaves the queue alone.
module _ (alloc : Heap → ℕ) (callback : ℕ → List Action) (q : TimerQueue) (when p : ℕ) (t : Timer)
    (now later : ℕ) (only : q.timers ≡ (when, p) ∷ []) (live : q.heap p ≡ some t)
    (repeats : t.repeat ≡ true) (quiet : callback t.callback ≡ []) (due : when ≤ now)
    (real : p < max_pointer) where
  -- The queue that `handleRead` leaves.
  abbrev pub after_read : TimerQueue
  after_read =
      reset_timerfd
        (record q {
          timers = (when, p) ∷ [];
          calling_expired_timers = false;
          canceling_timers = [];
          heap = write q.heap p (some (restart t now));
        })
        (now + t.interval.micros) later

  is_due : (n : ℕ) → when ≤ n → entry_lt (when, p) (n, max_pointer) ≡ true
  is_due n le = ground arith

  abbrev run_done : TimerQueue
  run_done = record q { timers = []; calling_expired_timers = false; canceling_timers = [] }

  abbrev put_back : TimerQueue
  put_back = record run_done {
    timers = (when, p) ∷ [];
    heap = write q.heap p (some (restart t now));
  }

  expiration-restart : (restart t now).expiration ≡ now + t.interval.micros
  unfolding restart
  expiration-restart = rw repeats

  reset_entry-back : reset_entry run_done (when, p) now ≡ some put_back
  unfolding reset_entry insert mem
  reset_entry-back = rw (live, repeats)

  rearm-back : rearm put_back ((when, p) ∷ []) later ≡ some after_read
  unfolding rearm
  rearm-back = rw (==_refl p, expiration-restart)

  -- The timer is set for its next time, and the descriptor too, but the entry keeps the old key.
  pub handle_read-repeating : handle_read alloc callback q now later ≡ some after_read
  unfolding handle_read get_expired below from run_expired perform reset reset_entries
  handle_read-repeating =
      rw (only, from, is_due now due, below, live, quiet, reset, reset_entry-back) rearm-back

  -- The fault of `reset`: `handle_read` over a queue with one timer, a repeating one that is
  -- due and whose callback leaves the queue alone, succeeds, and in the queue that it leaves
  -- `get_expired` hands that timer out at every later moment, before its next time too.
  pub repeating_due :
      (next : ℕ)
      → now ≤ next
      → (q' : TimerQueue) × (handle_read alloc callback q now later ≡ some q')
        × (get_expired q' next ≡ some ((when, p) ∷ [], record q' { timers = [] }))
  unfolding get_expired below from reset_timerfd
  repeating_due next le = (after_read, handle_read-repeating, rw (is_due next (omega (arith, due))))

  -- Its consequence: in that queue, a timer added with an expiration not before the old key,
  -- at another address, does not change the moment for which the descriptor is set, the next
  -- time of the repeating timer, or 100 microseconds after it was set if that is later; so it
  -- may fire too late.
  pub repeating_unarmed :
      (s : Timer) (added : ℕ)
      → when ≤ s.expiration
      → alloc after_read.heap ≢ p
      → (id : Entry) × (q' : TimerQueue) × (add_timer alloc after_read s added ≡ some (id, q'))
        × (q'.armed ≡ some (max (later + 100) (now + t.interval.micros)))
  unfolding reset_timerfd add_timer add_timer_in_loop uses
  repeating_unarmed s added first other =
      let a = alloc after_read.heap in
      let new : (insert (s.expiration, a) ((when, p) ∷ [])).1 ≡ true =
        (uses-insert s.expiration a a ((when, p) ∷ []) (ground (arith, other))).1 in
      (
        (s.expiration, a),
        record after_read {
          heap = write after_read.heap a (some s);
          timers = (insert (s.expiration, a) ((when, p) ∷ [])).0;
        },
        rw (==_refl a, new, le→ltb_false s.expiration when first),
        armed-reset_timerfd q (now + t.interval.micros) later,
      )
