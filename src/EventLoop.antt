-- ===== src/EventLoop.antt =====
-- matelib/EventLoop.h and matelib/EventLoop.cc: the tasks that threads hand to a loop, and how the
-- loop is woken for them. A task is a number; what it does is a parameter. Dispatch has the events.
pub mod Steps
pub mod Wakeup
pub mod Order
pub mod Dispatch
mod Tests
use matelib.Prelude.{
  ℕ, zero, suc, ◌+◌, Bool, true, false, not, ◌&&◌, ◌||◌, List, [], ◌∷◌, ◌++◌, Option, none, some,
  ◌>>=◌, ◌>>◌, assert, if◌then◌else◌,
}

-- The fields of the loop that its tasks and its waking depend on. `wakeup_count` is the counter of
-- the eventfd; `executed` records the tasks that have been called.
pub record EventLoop : Type 0 where
  pub looping : Bool
  pub quitting : Bool
  pub calling_pending_functors : Bool
  pub pending_functors : List ℕ
  pub wakeup_count : ℕ
  pub executed : List ℕ

-- The constructor.
abbrev pub fresh : EventLoop
fresh = record {
  looping = false;
  quitting = false;
  calling_pending_functors = false;
  pending_functors = [];
  wakeup_count = 0;
  executed = [];
}

-- A write of 1 to the eventfd.
abbrev pub wakeup : EventLoop → EventLoop
wakeup s = record s { wakeup_count = suc s.wakeup_count }

-- A read of the eventfd takes the whole count.
abbrev pub handle_wakeup : EventLoop → EventLoop
handle_wakeup s = record s { wakeup_count = 0 }

-- The part of `queueInLoop` under the lock, and the test behind it.
abbrev pub push : EventLoop → ℕ → EventLoop
push s f = record s { pending_functors = s.pending_functors ++ (f ∷ []) }

abbrev pub must_wake : Bool → EventLoop → Bool
must_wake in_loop_thread s = not in_loop_thread || s.calling_pending_functors

unfoldable pub queue_in_loop : Bool → EventLoop → ℕ → EventLoop
queue_in_loop in_loop_thread s f =
    let s' = push s f in if must_wake in_loop_thread s' then wakeup s' else s'

abbrev pub call : EventLoop → ℕ → EventLoop
call s f = record s { executed = s.executed ++ (f ∷ []) }

-- `runInLoop`
unfoldable pub run_in_loop : Bool → EventLoop → ℕ → EventLoop
run_in_loop in_loop_thread s f =
    if in_loop_thread then call s f else queue_in_loop in_loop_thread s f

unfoldable pub quit : Bool → EventLoop → EventLoop
quit in_loop_thread s =
    let s' = record s { quitting = true } in if in_loop_thread then s' else wakeup s'

-- `doPendingFunctors` up to the loop: the flag, and the swap under the lock.
unfoldable pub swap_pending : EventLoop → List ℕ × EventLoop
swap_pending s =
    (s.pending_functors, record s { calling_pending_functors = true; pending_functors = [] })

-- `functors[i]()`: the task `f` queues what `tasks f` says, from the loop's thread.
abbrev pub queue_all : EventLoop → List ℕ → EventLoop
queue_all s [] = s
queue_all s (f ∷ fs) = queue_all (queue_in_loop true s f) fs

module _ (tasks : ℕ → List ℕ) where
  unfoldable pub run_functor : EventLoop → ℕ → EventLoop
  run_functor s f = queue_all (call s f) (tasks f)

  unfoldable pub run_functors : EventLoop → List ℕ → EventLoop
  run_functors s [] = s
  run_functors s (f ∷ fs) = run_functors (run_functor s f) fs

  -- `doPendingFunctors`, with no other thread in between.
  unfoldable pub do_pending_functors : EventLoop → EventLoop
  do_pending_functors s =
      let (functors, s') = swap_pending s in
      record (run_functors s' functors) { calling_pending_functors = false }
