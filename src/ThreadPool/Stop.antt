-- ===== src/ThreadPool/Stop.antt =====
-- `ThreadPool::stop` of matelib/base/ThreadPool.cc waits until every thread has ended.
use mathlib.Core.Bool.{true≢false}
use mathlib.Core.List.{Perm}
use matelib.Prelude.{
  ℕ, zero, suc, ◌+◌, ◌*◌, ◌<◌, ◌≡◌, refl, sym, ap, ◌∙◌, ◌⊎◌, inl, inr, false, List, [], ◌∷◌, ◌++◌,
  Option, arith, length, length-append, append-nil,
}
use matelib.Prelude.Inevitable.{Inevitably, Inevitably-of_measure}
use matelib.ThreadPool.{ThreadPool, Takes, waits, nothing, front, take-Takes}
use matelib.ThreadPool.Steps.{System, took, Work, enters, ends, takes, wakes, executes, Reach}
use matelib.ThreadPool.Queue.{IsSound, Work-IsSound, Reach-IsSound}

-- How far the threads are from their end.
measure : System → ℕ
measure s = s.ready + 3 * s.taking + 2 * length s.held

-- A pool that has been told to stop.
record IsStopping (s : System) : Type 0 where
  off : s.pool.running ≡ false
  sound : IsSound s

took_closer :
    (s : System) (n : ℕ) {got : Option (Option ℕ × ThreadPool)}
    → s.taking ≡ suc n
    → s.pool.running ≡ false
    → Takes s.pool got
    → ((took s n got).pool.running ≡ false) × (measure (took s n got) < measure s)
unfolding measure took
took_closer s n e off (waits empty on) = absurd (true≢false (sym on ∙ off))
took_closer s n e off (nothing empty _) = (off, omega arith)
took_closer s n e off (front task tasks queued) = (off, omega arith)

stays_off :
    {s t : System} → Work s t → IsStopping s → (t.pool.running ≡ false) × (measure t < measure s)
unfolding measure
stays_off (enters n e on) h = absurd (true≢false (sym on ∙ h.off))
stays_off (ends n e off) h = (h.off, omega arith)
stays_off {s} (takes n e) h = took_closer s n e h.off (take-Takes s.pool)
stays_off (wakes n e) h = absurd (omega (arith, h.sound.stopped h.off))
stays_off (executes task before after e) h = (
  h.off,
  omega (arith, ap length e, length-append before (task ∷ after), length-append before after),
)

Work-measure : {s t : System} → Work s t → IsStopping s → IsStopping t × (measure t < measure s)
Work-measure w h =
    let (off, less) = stays_off w h in (record { off = off; sound = Work-IsSound w h.sound }, less)

-- Every thread has ended, and the tasks that were taken have been executed.
pub record IsJoined (s : System) : Type 0 where
  pub all_ended : s.finished ≡ s.pool.threads
  pub all_executed : Perm s.executed s.taken
  pub left_over : s.submitted ≡ s.taken ++ s.pool.tasks

-- A thread that has not ended can go on.
progress : (s : System) → IsStopping s → IsJoined s ⊎ ((t : System) × Work s t)
progress s h = by_place s.ready s.taking s.held refl refl refl
  where
    by_place :
        (ready taking : ℕ) (held : List ℕ)
        → s.ready ≡ ready
        → s.taking ≡ taking
        → s.held ≡ held
        → IsJoined s ⊎ ((t : System) × Work s t)
    by_place (suc n) taking held e _ _ = inr (_, ends n e h.off)
    by_place zero (suc n) held _ e _ = inr (_, takes n e)
    by_place zero zero (task ∷ held) _ _ e = inr (_, executes task [] held e)
    by_place zero zero [] e₁ e₂ e₃ = inl (record {
      all_ended = omega (arith, h.sound.census, h.sound.stopped h.off, ap length e₃);
      all_executed = rw (e₃, append-nil s.executed) at h.sound.once;
      left_over = h.sound.in_order;
    })

-- From every state that a pool reaches in which it is told to stop, and whichever of its threads
-- go on in whatever order while nothing else happens: it comes to a state in which all threads
-- have ended, so that `stop` returns from its joins, every task that was taken has been
-- executed, and the tasks that were not taken are still in the queue.
pub stop-Inevitably :
    {t_num : ℕ} {s : System} → Reach t_num s → s.pool.running ≡ false → Inevitably Work IsJoined s
stop-Inevitably r off =
    Inevitably-of_measure Work IsJoined IsStopping measure progress (λ s t w. Work-measure w)
      (record { off = off; sound = Reach-IsSound r })
