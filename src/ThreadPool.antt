-- ===== src/ThreadPool.antt =====
-- matelib/base/ThreadPool.h and matelib/base/ThreadPool.cc: a queue of tasks and the threads that take
-- them from it. A task is a number.
pub mod Steps
pub mod Queue
pub mod Stop
mod Tests
use mathlib.Core.Option.{some_inj}
use matelib.Prelude.{
  ℕ, zero, suc, ◌+◌, Bool, true, false, not, List, [], ◌∷◌, ◌++◌, Option, none, some, ◌>>=◌, ◌>>◌,
  assert, ◌==◌, ◌≡◌, refl, sym, ==→eq, if◌then◌else◌,
}

-- `threads` counts the pointers of `threads_`.
pub record ThreadPool : Type 0 where
  pub thread_num : ℕ
  pub running : Bool
  pub tasks : List ℕ
  pub threads : ℕ

abbrev pub fresh : ℕ → ThreadPool
fresh t_num = record { thread_num = t_num; running = false; tasks = []; threads = 0 }

-- The pointers of an earlier start have been reset or have their thread started, and starting
-- them again faults.
pub start : ThreadPool → Option ThreadPool
start p = do
  assert (not p.running)
  assert (p.threads == 0)
  some (record p { running = true; threads = p.thread_num })

pub start_started :
    (p : ThreadPool) {p' : ThreadPool}
    → start p ≡ some p'
    → (p.threads ≡ 0) × (p' ≡ record p { running = true; threads = p.thread_num })
unfolding start
start_started p {p'} e = by_tests p.running (p.threads == 0) refl e
  where
    by_tests :
        (on : Bool) (none_yet : Bool)
        → (p.threads == 0) ≡ none_yet
        → (do
          assert (not on)
          assert none_yet
          some (record p { running = true; threads = p.thread_num }))
          ≡ some p'
        → (p.threads ≡ 0) × (p' ≡ record p { running = true; threads = p.thread_num })
    by_tests true none_yet _ made = cc
    by_tests false false _ made = cc
    by_tests false true tested made = (==→eq p.threads 0 tested, sym (some_inj.0 made))

-- `stop` under its lock.
abbrev pub stop_running : ThreadPool → ThreadPool
stop_running p = record p { running = false }

-- `run`: the task is executed by its caller, or goes to the back of the queue.
abbrev pub runs_directly : ThreadPool → Bool
runs_directly p = p.threads == 0

abbrev pub push : ThreadPool → ℕ → ThreadPool
push p task = record p { tasks = p.tasks ++ (task ∷ []) }

-- `take` with the mutex held: it waits for the condition, which is `none`, or returns a task, or the
-- empty one.
take_from : ThreadPool → List ℕ → Option (Option ℕ × ThreadPool)
take_from p [] = if p.running then none else some (none, p)
take_from p (task ∷ tasks) = some (some task, record p { tasks = tasks })

pub take : ThreadPool → Option (Option ℕ × ThreadPool)
unfolding take_from
take p = take_from p p.tasks

-- The three ways in which `take` goes on.
pub data Takes (p : ThreadPool) : Option (Option ℕ × ThreadPool) → Type 0 where
  waits : p.tasks ≡ [] → p.running ≡ true → Takes p none
  nothing : p.tasks ≡ [] → p.running ≡ false → Takes p (some (none, p))
  front :
      (task : ℕ) (tasks : List ℕ)
      → p.tasks ≡ task ∷ tasks
      → Takes p (some (some task, record p { tasks = tasks }))

pub take-Takes : (p : ThreadPool) → Takes p (take p)
unfolding take take_from
take-Takes p = by_tasks p.tasks refl
  where
    by_tasks : (tasks : List ℕ) → p.tasks ≡ tasks → Takes p (take_from p tasks)
    by_tasks [] e = by_running p.running refl
      where
        by_running : (on : Bool) → p.running ≡ on → Takes p (if on then none else some (none, p))
        by_running true on = waits e on
        by_running false off = nothing e off
    by_tasks (task ∷ tasks) e = front task tasks e
