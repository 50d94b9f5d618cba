-- ===== src/ThreadPool/Queue.antt =====
-- The order of the tasks of matelib/base/ThreadPool.cc, and the threads that wait for them.
use mathlib.Core.List.{Perm, perm_middle, perm_append_singleton}
use mathlib.Core.List.Perm
use mathlib.Core.Bool.{true≢false}
use matelib.Prelude.{
  ℕ, zero, suc, ◌+◌, ◌≤◌, ◌<◌, ◌≡◌, refl, sym, ap, ◌∙◌, false, List, [], ◌∷◌, ◌++◌, Option, some,
  arith, length, length-append, append_assoc, inl, inr, Bool-cases,
}
use matelib.ThreadPool.{
  ThreadPool, start, start_started, runs_directly, push, Takes, waits, nothing, front, take-Takes,
}
use matelib.ThreadPool.Steps.{
  System, initial, wake_from, run, stop, took, Work, enters, ends, takes, wakes, executes, Step,
  works, starts, runs, stops, Reach, here, next,
}

-- What holds of a pool at all times.
pub record IsSound (s : System) : Type 0 where
  -- Every task of the queue was submitted and is not taken yet; they are taken in order.
  pub in_order : s.submitted ≡ s.taken ++ s.pool.tasks
  -- Every task taken is executed once or in the hands of one thread.
  pub once : Perm (s.executed ++ s.held) s.taken
  -- No signal is lost.
  pub awake : 0 < s.waiting → length s.pool.tasks ≤ s.taking
  pub stopped : s.pool.running ≡ false → s.waiting ≡ 0
  -- No thread is lost.
  pub census : s.pool.threads ≡ s.ready + s.taking + s.waiting + length s.held + s.finished

initial-IsSound : (t_num : ℕ) → IsSound (initial t_num)
initial-IsSound t_num = record {
  in_order = refl;
  once = Perm.refl [];
  awake = λ h. absurd (omega arith);
  stopped = λ h. refl;
  census = omega arith;
}

took-IsSound :
    {s : System} (n : ℕ) {got : Option (Option ℕ × ThreadPool)}
    → IsSound s
    → s.taking ≡ suc n
    → Takes s.pool got
    → IsSound (took s n got)
unfolding took
took-IsSound {s} n h e (waits empty on) = record {
  in_order = h.in_order;
  once = h.once;
  awake = λ _. omega (arith, ap length empty);
  stopped = λ off. absurd (true≢false (sym on ∙ off));
  census = omega (arith, h.census);
}
took-IsSound n h e (nothing empty off) = record {
  in_order = h.in_order;
  once = h.once;
  awake = λ sleeping. absurd (omega (arith, h.stopped off));
  stopped = h.stopped;
  census = omega (arith, h.census);
}
took-IsSound {s} n h e (front task tasks queued) = record {
  in_order = h.in_order ∙ ap (◌++◌ s.taken) queued ∙ sym (append_assoc s.taken (task ∷ []) tasks);
  once =
      Perm.trans (perm_middle s.executed s.held)
        (Perm.trans (Perm.cons task h.once) (Perm.symm (perm_append_singleton task s.taken)));
  awake = λ sleeping. omega (arith, h.awake sleeping, ap length queued);
  stopped = h.stopped;
  census = omega (arith, h.census);
}

pub Work-IsSound : {s t : System} → Work s t → IsSound s → IsSound t
Work-IsSound (enters n e on) h = record {
  in_order = h.in_order;
  once = h.once;
  awake = λ sleeping. omega (arith, h.awake sleeping);
  stopped = h.stopped;
  census = omega (arith, h.census);
}
Work-IsSound (ends n e off) h = record {
  in_order = h.in_order;
  once = h.once;
  awake = h.awake;
  stopped = h.stopped;
  census = omega (arith, h.census);
}
Work-IsSound {s} (takes n e) h = took-IsSound n h e (take-Takes s.pool)
Work-IsSound (wakes n e) h = record {
  in_order = h.in_order;
  once = h.once;
  awake = λ sleeping. omega (arith, h.awake (omega arith));
  stopped = λ off. absurd (omega (arith, h.stopped off));
  census = omega (arith, h.census);
}
Work-IsSound {s} (executes task before after e) h = record {
  in_order = h.in_order;
  once = Perm.trans (Perm.symm moved) h.once;
  awake = h.awake;
  stopped = h.stopped;
  census = omega (
    arith,
    h.census,
    ap length e,
    length-append before (task ∷ after),
    length-append before after,
  );
}
  where
    moved : Perm (s.executed ++ s.held) (task ∷ (s.executed ++ (before ++ after)))
    moved =
        rw
          (
            e,
            sym (append_assoc s.executed before (task ∷ after)),
            sym (append_assoc s.executed before after),
          )
          (perm_middle (s.executed ++ before) after)

-- A signal wakes one thread for the task that was queued.
notify-IsSound :
    (s : System)
    → s.submitted ≡ s.taken ++ s.pool.tasks
    → Perm (s.executed ++ s.held) s.taken
    → (0 < s.waiting → length s.pool.tasks ≤ suc s.taking)
    → (s.pool.running ≡ false → s.waiting ≡ 0)
    → s.pool.threads ≡ s.ready + s.taking + s.waiting + length s.held + s.finished
    → (n : ℕ) → s.waiting ≡ n
    → IsSound (wake_from n s)
notify-IsSound s in_order once awake stopped census zero e = record {
  in_order = in_order;
  once = once;
  awake = λ sleeping. absurd (omega arith);
  stopped = stopped;
  census = census;
}
notify-IsSound s in_order once awake stopped census (suc n) e = record {
  in_order = in_order;
  once = once;
  awake = λ _. awake (omega arith);
  stopped = λ off. absurd (omega (arith, stopped off));
  census = omega (arith, census);
}

run-IsSound : (s : System) (task : ℕ) → IsSound s → IsSound (run s task)
unfolding run
run-IsSound s task h = elim (Bool-cases (runs_directly s.pool)) [
  | inl direct ↦ rw direct (record {
    in_order = h.in_order;
    once = h.once;
    awake = h.awake;
    stopped = h.stopped;
    census = h.census;
  })
  | inr queued ↦ rw queued (
      notify-IsSound (record s { pool = push s.pool task; submitted = s.submitted ++ (task ∷ []) })
        (ap (λ (xs : List ℕ). xs ++ (task ∷ [])) h.in_order
          ∙ append_assoc s.taken s.pool.tasks (task ∷ []))
        h.once (λ sleeping. omega (arith, h.awake sleeping, length-append s.pool.tasks (task ∷ [])))
        h.stopped h.census s.waiting refl)
]

start-IsSound :
    {s : System} (p : ThreadPool)
    → start s.pool ≡ some p
    → IsSound s
    → IsSound (record s { pool = p; ready = s.ready + p.threads })
start-IsSound {s} p e h =
    let (none_yet, made) = start_started s.pool e in
    rw made (record {
      in_order = h.in_order;
      once = h.once;
      awake = h.awake;
      stopped = λ off. absurd (true≢false off);
      census = omega (arith, h.census);
    })

stop-IsSound : {s : System} → IsSound s → IsSound (stop s)
unfolding stop
stop-IsSound h = record {
  in_order = h.in_order;
  once = h.once;
  awake = λ sleeping. absurd (omega arith);
  stopped = λ _. refl;
  census = omega (arith, h.census);
}

Step-IsSound : {s t : System} → Step s t → IsSound s → IsSound t
Step-IsSound (works w) h = Work-IsSound w h
Step-IsSound (starts p e) h = start-IsSound p e h
Step-IsSound {s} (runs task) h = run-IsSound s task h
Step-IsSound stops h = stop-IsSound h

-- In every state that a pool, its threads and its users reach, in any interleaving and with
-- spurious wakeups: the tasks that were queued are those that were taken, in the same order,
-- followed by the queue; each task that was taken has been executed once or is in the hands of
-- one thread; if a thread sleeps, at least as many threads are on their way to the queue as it
-- has tasks; no thread sleeps in a pool that is not running; and no thread is lost.
pub Reach-IsSound : {t_num : ℕ} {s : System} → Reach t_num s → IsSound s
Reach-IsSound {t_num} here = initial-IsSound t_num
Reach-IsSound (next r st) = Step-IsSound st (Reach-IsSound r)
