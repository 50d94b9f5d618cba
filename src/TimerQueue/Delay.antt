-- ===== src/TimerQueue/Delay.antt =====
-- What `resetTimerfd` of matelib/TimerQueue.cc sets the timer descriptor to.
use matelib.Prelude.{ℕ, ◌+◌, ◌-◌, ◌*◌, ◌/◌, ◌<◌, ◌≡◌, some, arith, max}
use matelib.TimerQueue.{TimerQueue, how_much_time_from_now, reset_timerfd}

-- The time handed to the kernel is a proper `timespec` and stands for the difference, but for 100
-- microseconds at least.
pub how_much_time_from_now-lem :
    (when now : ℕ)
    → let ts = how_much_time_from_now when now in
      (ts.tv_nsec < 1000000000) × (ts.tv_sec * 1000000 + ts.tv_nsec / 1000 ≡ max 100 (when - now))
unfolding how_much_time_from_now
how_much_time_from_now-lem when now = ground arith

-- `reset_timerfd` sets the timer descriptor such that it is readable at the moment asked for, or
-- 100 microseconds from now if that is later; the seconds and nanoseconds handed to the kernel
-- lose nothing of it.
pub armed-reset_timerfd :
    (q : TimerQueue) (when now : ℕ) → (reset_timerfd q when now).armed ≡ some (max (now + 100) when)
unfolding reset_timerfd how_much_time_from_now
armed-reset_timerfd q when now = ground arith
