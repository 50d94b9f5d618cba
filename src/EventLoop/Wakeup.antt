-- ===== src/EventLoop/Wakeup.antt =====
-- The eventfd of matelib/EventLoop.cc while tasks are pending.
use matelib.Prelude.{◌+◌, ◌<◌, ◌≡◌, ◌≢◌, ◌⊎◌, Bool, true, false, [], arith}
use matelib.EventLoop.{queue_in_loop, swap_pending}
use matelib.EventLoop.Steps.{
  Phase, polling, handling, running, System, Step, other_pushes, other_quits, other_wakes,
  queues_early, enters, poll_returns, reads_wakeup, callback_queues, swaps, calls, task_queues,
  ends, Reach, here, next,
}

abbrev pub is_running : Phase → Bool
is_running (running fs) = true
is_running _ = false

-- The flag says whether tasks are being called. Tasks are pending outside the handling of events
-- only if a wakeup is written, or about to be, or tasks were queued before `loop()` without one.
pub record IsGuarded (s : System) : Type 0 where
  pub flag : s.loop.calling_pending_functors ≡ is_running s.phase
  pub woken :
      (s.loop.pending_functors ≡ [])
      ⊎ (0 < s.loop.wakeup_count + s.waking)
      ⊎ (s.phase ≡ handling)
      ⊎ (0 < s.early)

Step-IsGuarded : {s t : System} → Step s t → IsGuarded s → IsGuarded t
unfolding queue_in_loop swap_pending
Step-IsGuarded (other_pushes f) g = ground arith
Step-IsGuarded other_quits g = ground arith
Step-IsGuarded (other_wakes n e) g = ground arith
Step-IsGuarded (queues_early f e) g = ground arith
Step-IsGuarded (enters e) g = ground arith
Step-IsGuarded (poll_returns e) g = ground arith
Step-IsGuarded (reads_wakeup e) g = ground arith
Step-IsGuarded (callback_queues f e) g = ground arith
Step-IsGuarded (swaps e) g = ground arith
Step-IsGuarded (calls f fs e) g = ground arith
Step-IsGuarded (task_queues f fs e) g = ground arith
Step-IsGuarded (ends e) g = ground arith

Reach-IsGuarded : {s : System} → Reach s → IsGuarded s
Reach-IsGuarded here = ground arith
Reach-IsGuarded (next r st) = Step-IsGuarded st (Reach-IsGuarded r)

-- In every state that the interleavings of the loop's thread with other threads reach, from
-- before it calls `loop()`: if the loop waits in `poll`, tasks are pending, and none of them was
-- queued by the loop's own thread before `loop()`, the eventfd has been written or a thread is
-- about to write it, so no such task waits for a wakeup that never comes.
pub no_lost_wakeup :
    {s : System}
    → Reach s
    → s.phase ≡ polling
    → s.loop.pending_functors ≢ []
    → s.early ≡ 0
    → 0 < s.loop.wakeup_count + s.waking
no_lost_wakeup r e ne on_time = ground (arith, (Reach-IsGuarded r).woken)
