-- ===== src/TimerQueue/Tests.antt =====
-- The timer queue's theorems at a queue with one repeating timer.
use matelib.Prelude.{ℕ, ◌≡◌, refl, true, false, List, [], ◌∷◌, ◌++◌, none, some, arith}
use matelib.TimerQueue.EntrySet.{Entry, uses}
use matelib.TimerQueue.{
  Timer, adds, Heap, make_timer, write, TimerQueue, reset_timerfd, Action, get_expired, handle_read,
}
use matelib.TimerQueue.Delay.{armed-reset_timerfd}
use matelib.TimerQueue.Expired.{AllDue, AllLater, get_expired-exact}
use matelib.TimerQueue.Allocator.{lowest, lowest-Allocator}
use matelib.TimerQueue.Ownership.{IsSafe}
use matelib.TimerQueue.Turn.{handle_read-IsSafe}
use matelib.TimerQueue.Repeating.{repeating_due}

-- A timer for each second, first due at 500, at the address 7.
abbrev each_second : Timer
each_second = make_timer 1 500 (record { positive = true; micros = 1000000 })

abbrev one_timer : TimerQueue
one_timer = record {
  timers = (500, 7) ∷ [];
  calling_expired_timers = false;
  canceling_timers = [];
  heap = write (λ p. none) 7 (some each_second);
  armed = none;
}

-- The callbacks leave the queue alone, and memory is taken at the address 9.
abbrev quiet : ℕ → List Action
quiet cb = []

abbrev nine : Heap → ℕ
nine h = 9

armed-reset_timerfd_example : (reset_timerfd one_timer 500 100).armed ≡ some 500
armed-reset_timerfd_example = armed-reset_timerfd one_timer 500 100

get_expired-exact_example :
    (es : List Entry) × (q' : TimerQueue) × (get_expired one_timer 600 ≡ some (es, q'))
    × (es ++ q'.timers ≡ (500, 7) ∷ [])
    × AllDue 600 es
    × AllLater 600 q'.timers
get_expired-exact_example = get_expired-exact one_timer 600 (tt, omega arith, tt)

one_timer-IsSafe : IsSafe one_timer []
unfolding uses
one_timer-IsSafe = record { owned = λ p. ground arith; in_range = λ p le. ground arith }

-- The queue while its timer is being called.
abbrev calling : TimerQueue
calling = record one_timer { timers = [] }

calling-IsSafe : IsSafe calling ((500, 7) ∷ [])
unfolding uses
calling-IsSafe = record { owned = λ p. ground arith; in_range = λ p le. ground arith }

-- Each callback adds a timer.
abbrev adding : ℕ → List Action
adding cb = adds (make_timer 2 9000 (record { positive = false; micros = 0 })) 605 ∷ []

handle_read-IsSafe_example :
    (q' : TimerQueue) × (handle_read lowest adding one_timer 600 610 ≡ some q') × IsSafe q' []
unfolding lowest-Allocator
handle_read-IsSafe_example =
    handle_read-IsSafe lowest-Allocator adding 1 one_timer 600 610 (λ cb. omega arith)
      (8, omega arith, λ p le. ground arith) one_timer-IsSafe

repeating_due_example :
    (q' : TimerQueue) × (handle_read nine quiet one_timer 600 610 ≡ some q')
    × (get_expired q' 700 ≡ some ((500, 7) ∷ [], record q' { timers = [] }))
repeating_due_example =
    repeating_due nine quiet one_timer 500 7 each_second 600 610 refl refl refl refl (omega arith)
      (omega arith) 700 (omega arith)
