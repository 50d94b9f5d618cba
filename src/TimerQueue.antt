-- ===== src/TimerQueue.antt =====
-- matelib/Timer.h, matelib/TimerQueue.h and matelib/TimerQueue.cc: timers of an event loop.
-- Times are microseconds. A timer is an object on the heap; the allocator is a parameter.
pub mod EntrySet
pub mod Delay
pub mod Expired
pub mod Allocator
pub mod Ownership
pub mod Turn
pub mod Repeating
mod Tests
use matelib.Prelude.{
  ℕ, zero, suc, ◌+◌, ◌-◌, ◌*◌, ◌/◌, ◌%◌, Bool, true, false, not, ◌&&◌, ◌||◌, List, [], ◌∷◌, ◌++◌,
  Option, none, some, ◌>>=◌, ◌>>◌, assert, ltb, leb, ◌==◌, if◌then◌else◌,
}
use EntrySet.{Entry, insert, mem, erase, below, from}

-- What the code reads of `double intervalInSec`: whether it is positive, and its microseconds.
pub record Interval : Type 0 where
  pub positive : Bool
  pub micros : ℕ

pub record Timer : Type 0 where
  pub callback : ℕ
  pub expiration : ℕ
  pub interval : Interval
  pub repeat : Bool

-- `Timer(cb, when, intervalInSec)`
abbrev pub make_timer : ℕ → ℕ → Interval → Timer
make_timer cb when interval = record {
  callback = cb;
  expiration = when;
  interval = interval;
  repeat = interval.positive;
}

-- `Timestamp::invalid()` is 0.
unfoldable pub restart : Timer → ℕ → Timer
restart t now =
    if t.repeat
    then record t { expiration = now + t.interval.micros }
    else record t { expiration = 0 }

abbrev pub Heap : Type 0
Heap = ℕ → Option Timer

abbrev pub write : Heap → ℕ → Option Timer → Heap
write heap p v q = if p == q then v else heap q

-- `armed` is the moment at which the timer descriptor will be readable.
pub record TimerQueue : Type 0 where
  pub timers : List Entry
  pub calling_expired_timers : Bool
  pub canceling_timers : List Entry
  pub heap : Heap
  pub armed : Option ℕ

pub record Timespec : Type 0 where
  pub tv_sec : ℕ
  pub tv_nsec : ℕ

-- `when - now` is a signed difference: below 100, and so below zero, it is 100.
abbrev pub micros_from_now : ℕ → ℕ → ℕ
micros_from_now when now = if ltb when (now + 100) then 100 else when - now

unfoldable pub how_much_time_from_now : ℕ → ℕ → Timespec
how_much_time_from_now when now = record {
  tv_sec = micros_from_now when now / 1000000;
  tv_nsec = micros_from_now when now % 1000000 * 1000;
}

-- `timerfd_settime` with a relative time.
unfoldable pub reset_timerfd : TimerQueue → ℕ → ℕ → TimerQueue
unfolding how_much_time_from_now
reset_timerfd q expiration now =
    let ts = how_much_time_from_now expiration now in
    record q { armed = some (now + (ts.tv_sec * 1000000 + ts.tv_nsec / 1000)) }

-- A read through a freed pointer is a fault.
abbrev pub deref : TimerQueue → ℕ → Option Timer
deref q p = q.heap p

-- `delete`
abbrev pub free : TimerQueue → ℕ → Option TimerQueue
free q p = do t ← deref q p; some (record q { heap = write q.heap p none })

abbrev earliest_changed : List Entry → ℕ → Bool
earliest_changed [] when = true
earliest_changed ((first, p) ∷ es) when = ltb when first

pub add_timer_in_loop : TimerQueue → ℕ → ℕ → Option TimerQueue
add_timer_in_loop q timer now = do
  t ← deref q timer
  let changed = earliest_changed q.timers t.expiration
  let (timers, inserted) = insert (t.expiration, timer) q.timers
  assert inserted
  let q' = record q { timers = timers }
  some (if changed then reset_timerfd q' t.expiration now else q')

-- `addTimer` from the loop's thread: `new Timer`, then `addTimerInLoop`; the id is returned.
pub add_timer : (Heap → ℕ) → TimerQueue → Timer → ℕ → Option (Entry × TimerQueue)
add_timer alloc q t now = do
  let p = alloc q.heap
  q' ← add_timer_in_loop (record q { heap = write q.heap p (some t) }) p now
  some ((t.expiration, p), q')

pub cancel_timer_in_loop : TimerQueue → Entry → Option TimerQueue
cancel_timer_in_loop q (when, p) =
    if mem (when, p) q.timers
    then (do q' ← free q p; some (record q' { timers = erase (when, p) q.timers }))
    else if q.calling_expired_timers
    then some (record q { canceling_timers = (insert (when, p) q.canceling_timers).0 })
    else some q

-- `UINTPTR_MAX`
abbrev pub max_pointer : ℕ
max_pointer = 18446744073709551615

abbrev pub end_is_later : List Entry → ℕ → Bool
end_is_later [] now = true
end_is_later ((when, p) ∷ es) now = ltb now when

pub get_expired : TimerQueue → ℕ → Option (List Entry × TimerQueue)
get_expired q now = do
  assert (end_is_later (from (now, max_pointer) q.timers) now)
  some (below (now, max_pointer) q.timers, record q { timers = from (now, max_pointer) q.timers })

-- What a callback does to the queue.
pub data Action : Type 0 where
  adds : Timer → ℕ → Action
  cancels : Entry → Action

module _ (alloc : Heap → ℕ) (callback : ℕ → List Action) where
  perform : TimerQueue → List Action → Option TimerQueue
  perform q [] = some q
  perform q (adds t now ∷ actions) = do (id, q') ← add_timer alloc q t now; perform q' actions
  perform q (cancels id ∷ actions) = do q' ← cancel_timer_in_loop q id; perform q' actions

  -- `it->second->run()` for each expired timer.
  run_expired : TimerQueue → List Entry → Option TimerQueue
  run_expired q [] = some q
  run_expired q ((when, p) ∷ es) = do
    t ← deref q p
    q' ← perform q (callback t.callback)
    run_expired q' es

reset_entry : TimerQueue → Entry → ℕ → Option TimerQueue
reset_entry q (when, p) now = do
  t ← deref q p
  if t.repeat && not (mem (when, p) q.canceling_timers)
      then some (record q {
        heap = write q.heap p (some (restart t now));
        timers = (insert (when, p) q.timers).0;
      })
      else free q p

reset_entries : TimerQueue → List Entry → ℕ → Option TimerQueue
reset_entries q [] now = some q
reset_entries q (e ∷ es) now = do q' ← reset_entry q e now; reset_entries q' es now

-- The descriptor is set for the timer that stands first.
rearm : TimerQueue → List Entry → ℕ → Option TimerQueue
rearm q [] now = some q
rearm q ((when, p) ∷ es) now = do t ← deref q p; some (reset_timerfd q t.expiration now)

-- `reset`. The second time is that of the call of `resetTimerfd`.
pub reset : TimerQueue → List Entry → ℕ → ℕ → Option TimerQueue
unfolding rearm
reset q expired now later = do q' ← reset_entries q expired now; rearm q' q'.timers later

-- `handleRead`
pub handle_read : (Heap → ℕ) → (ℕ → List Action) → TimerQueue → ℕ → ℕ → Option TimerQueue
handle_read alloc callback q now later = do
  (expired, q₁) ← get_expired (record q { canceling_timers = [] }) now
  q₂ ← run_expired alloc callback (record q₁ { calling_expired_timers = true }) expired
  reset (record q₂ { calling_expired_timers = false }) expired now later
