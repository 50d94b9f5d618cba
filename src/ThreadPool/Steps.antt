-- ===== src/ThreadPool/Steps.antt =====
-- The threads of a pool of matelib/base/ThreadPool.cc, interleaved with those that use it.
use matelib.Prelude.{
  ℕ, zero, suc, ◌+◌, ◌≡◌, true, false, List, [], ◌∷◌, ◌++◌, Option, none, some, if◌then◌else◌,
}
use matelib.ThreadPool.{ThreadPool, fresh, start, stop_running, runs_directly, push, take}

-- How many threads are at the test of `running_`, at the test of the queue with the mutex, in
-- `cond_.wait`, and at their end; `held` are the tasks in the hands of the others. `submitted`,
-- `taken` and `executed` record the tasks that were queued, taken and executed by the threads, and
-- `direct` those that `run` executed itself.
pub record System : Type 0 where
  pub pool : ThreadPool
  pub ready : ℕ
  pub taking : ℕ
  pub waiting : ℕ
  pub held : List ℕ
  pub finished : ℕ
  pub submitted : List ℕ
  pub taken : List ℕ
  pub executed : List ℕ
  pub direct : List ℕ

abbrev pub initial : ℕ → System
initial t_num = record {
  pool = fresh t_num;
  ready = 0;
  taking = 0;
  waiting = 0;
  held = [];
  finished = 0;
  submitted = [];
  taken = [];
  executed = [];
  direct = [];
}

-- `cond_.notify()` and `cond_.notifyAll()`
abbrev pub wake_from : ℕ → System → System
wake_from zero s = s
wake_from (suc n) s = record s { waiting = n; taking = suc s.taking }

abbrev pub notify : System → System
notify s = wake_from s.waiting s

abbrev pub notify_all : System → System
notify_all s = record s { waiting = 0; taking = s.taking + s.waiting }

-- `run`
unfoldable pub run : System → ℕ → System
run s task =
    if runs_directly s.pool
    then record s { direct = s.direct ++ (task ∷ []) }
    else notify (record s { pool = push s.pool task; submitted = s.submitted ++ (task ∷ []) })

-- `stop` up to the joins.
unfoldable pub stop : System → System
stop s = notify_all (record s { pool = stop_running s.pool })

-- One thread of those that take goes on as `take` says; `n` others are left there.
unfoldable pub took : System → ℕ → Option (Option ℕ × ThreadPool) → System
took s n none = record s { taking = n; waiting = suc s.waiting }
took s n (some (none, p)) = record s { pool = p; taking = n; ready = suc s.ready }
took s n (some (some task, p)) = record s {
  pool = p;
  taking = n;
  held = task ∷ s.held;
  taken = s.taken ++ (task ∷ []);
}

-- A step of a thread of the pool.
pub data Work (s : System) : System → Type 0 where
  enters :
      (n : ℕ)
      → s.ready ≡ suc n
      → s.pool.running ≡ true
      → Work s (record s { ready = n; taking = suc s.taking })
  ends :
      (n : ℕ)
      → s.ready ≡ suc n
      → s.pool.running ≡ false
      → Work s (record s { ready = n; finished = suc s.finished })
  takes : (n : ℕ) → s.taking ≡ suc n → Work s (took s n (take s.pool))
  -- The condition is signalled to no purpose.
  wakes : (n : ℕ) → s.waiting ≡ suc n → Work s (record s { waiting = n; taking = suc s.taking })
  executes :
      (task : ℕ) (before after : List ℕ)
      → s.held ≡ before ++ (task ∷ after)
      → Work s
          (record s { held = before ++ after; executed = task ∷ s.executed; ready = suc s.ready })

pub data Step (s : System) : System → Type 0 where
  works : {t : System} → Work s t → Step s t
  starts :
      (p : ThreadPool)
      → start s.pool ≡ some p
      → Step s (record s { pool = p; ready = s.ready + p.threads })
  runs : (task : ℕ) → Step s (run s task)
  stops : Step s (stop s)

pub data Reach (t_num : ℕ) : System → Type 0 where
  here : Reach t_num (initial t_num)
  next : {s t : System} → Reach t_num s → Step s t → Reach t_num t
