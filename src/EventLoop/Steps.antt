-- ===== src/EventLoop/Steps.antt =====
-- The thread of a loop of matelib/EventLoop.cc and the other threads, interleaved. `queueInLoop`
-- of another thread takes two steps: the push under the lock, and the wakeup.
use matelib.Prelude.{ℕ, suc, ◌≡◌, true, false, List, [], ◌∷◌, ◌++◌}
use matelib.EventLoop.{
  EventLoop, fresh, wakeup, handle_wakeup, push, queue_in_loop, call, swap_pending,
}

-- Where the loop's thread is: not yet in `loop()`, waiting in `poll`, handling events, or calling the swapped tasks
-- that are left.
pub data Phase : Type 0 where
  preparing polling handling : Phase
  running : List ℕ → Phase

-- `waking` other threads have pushed a task, or asked to quit, and not written to the eventfd yet.
-- `submitted` records the tasks in the order in which they were pushed, and `early` counts the
-- pending ones that the loop's thread queued before `loop()`, for which it does not wake itself.
pub record System : Type 0 where
  pub loop : EventLoop
  pub phase : Phase
  pub waking : ℕ
  pub submitted : List ℕ
  pub early : ℕ

abbrev pub initial : System
initial = record { loop = fresh; phase = preparing; waking = 0; submitted = []; early = 0 }

pub data Step (s : System) : System → Type 0 where
  -- Another thread pushes a task, and will wake the loop.
  other_pushes :
      (f : ℕ)
      → Step s (record s {
        loop = push s.loop f;
        waking = suc s.waking;
        submitted = s.submitted ++ (f ∷ []);
      })
  other_quits :
      Step s (record s { loop = record s.loop { quitting = true }; waking = suc s.waking })
  other_wakes : (n : ℕ) → s.waking ≡ suc n → Step s (record s { loop = wakeup s.loop; waking = n })
  -- The loop's thread queues a task before it calls `loop()`.
  queues_early :
      (f : ℕ)
      → s.phase ≡ preparing
      → Step s (record s {
        loop = queue_in_loop true s.loop f;
        submitted = s.submitted ++ (f ∷ []);
        early = suc s.early;
      })
  -- It calls `loop()`.
  enters : s.phase ≡ preparing → Step s (record s { phase = polling })
  -- `poll` returns: an event, the eventfd or the timeout.
  poll_returns : s.phase ≡ polling → Step s (record s { phase = handling })
  -- The eventfd's channel is handled.
  reads_wakeup : s.phase ≡ handling → Step s (record s { loop = handle_wakeup s.loop })
  -- An event's callback queues a task from the loop's thread.
  callback_queues :
      (f : ℕ)
      → s.phase ≡ handling
      → Step s
          (record s { loop = queue_in_loop true s.loop f; submitted = s.submitted ++ (f ∷ []) })
  -- `doPendingFunctors` begins.
  swaps :
      s.phase ≡ handling
      → Step s (record s {
        loop = (swap_pending s.loop).1;
        phase = running (swap_pending s.loop).0;
        early = 0;
      })
  -- The next task is called.
  calls :
      (f : ℕ) (fs : List ℕ)
      → s.phase ≡ running (f ∷ fs)
      → Step s (record s { loop = call s.loop f; phase = running fs })
  -- A task queues another one.
  task_queues :
      (f : ℕ) (fs : List ℕ)
      → s.phase ≡ running fs
      → Step s
          (record s { loop = queue_in_loop true s.loop f; submitted = s.submitted ++ (f ∷ []) })
  -- All tasks are called, and the loop polls again.
  ends :
      s.phase ≡ running []
      → Step s
          (record s { loop = record s.loop { calling_pending_functors = false }; phase = polling })

pub data Reach : System → Type 0 where
  here : Reach initial
  next : {s t : System} → Reach s → Step s t → Reach t
