-- ===== src/EventLoop/Order.antt =====
-- The order in which the tasks of matelib/EventLoop.cc are called.
use matelib.Prelude.{
  ℕ, ◌+◌, ◌≡◌, refl, sym, ap, ◌∙◌, Bool, true, false, List, [], ◌∷◌, ◌++◌, arith, append_assoc,
  append-nil, length, length-append,
}
use matelib.EventLoop.{
  EventLoop, queue_in_loop, call, swap_pending, queue_all, run_functor, run_functors,
  do_pending_functors,
}
use matelib.EventLoop.Steps.{
  Phase, running, System, Step, other_pushes, other_quits, other_wakes, queues_early, enters,
  poll_returns, reads_wakeup, callback_queues, swaps, calls, task_queues, ends, Reach, here, next,
}

-- The tasks that are swapped out and not called yet.
abbrev pub left : Phase → List ℕ
left (running fs) = fs
left _ = []

abbrev pub InOrder : System → Type 0
InOrder s = s.loop.executed ++ (left s.phase ++ s.loop.pending_functors) ≡ s.submitted

-- A push behind the tasks that are pending.
behind :
    (xs ys zs ws : List ℕ) (f : ℕ)
    → xs ++ (ys ++ zs) ≡ ws
    → xs ++ (ys ++ (zs ++ (f ∷ []))) ≡ ws ++ (f ∷ [])
behind xs ys zs ws f h =
    ap (◌++◌ xs) (sym (append_assoc ys zs (f ∷ [])))
    ∙ sym (append_assoc xs (ys ++ zs) (f ∷ []))
    ∙ ap (λ (t : List ℕ). t ++ (f ∷ [])) h

pending-queue :
    (b : Bool) (s : EventLoop) (f : ℕ)
    → ((queue_in_loop b s f).pending_functors ≡ s.pending_functors ++ (f ∷ []))
      × ((queue_in_loop b s f).executed ≡ s.executed)
      × ((queue_in_loop b s f).calling_pending_functors ≡ s.calling_pending_functors)
unfolding queue_in_loop
pending-queue b s f = ground arith

Step-InOrder : {s t : System} → Step s t → InOrder s → InOrder t
unfolding swap_pending
Step-InOrder {s} (other_pushes f) h =
    behind s.loop.executed (left s.phase) s.loop.pending_functors s.submitted f h
Step-InOrder other_quits h = h
Step-InOrder (other_wakes n e) h = h
Step-InOrder {s} (queues_early f e) h =
    rw ((pending-queue true s.loop f).0, (pending-queue true s.loop f).1)
      (behind s.loop.executed (left s.phase) s.loop.pending_functors s.submitted f h)
Step-InOrder (enters e) h = rw e at h
Step-InOrder (poll_returns e) h = rw e at h
Step-InOrder (reads_wakeup e) h = h
Step-InOrder {s} (callback_queues f e) h =
    rw ((pending-queue true s.loop f).0, (pending-queue true s.loop f).1)
      (behind s.loop.executed (left s.phase) s.loop.pending_functors s.submitted f h)
Step-InOrder {s} (swaps e) h = rw append-nil (rw e at h)
Step-InOrder {s} (calls f fs e) h =
    append_assoc s.loop.executed (f ∷ []) (fs ++ s.loop.pending_functors) ∙ (rw e at h)
Step-InOrder {s} (task_queues f fs e) h =
    rw ((pending-queue true s.loop f).0, (pending-queue true s.loop f).1)
      (behind s.loop.executed (left s.phase) s.loop.pending_functors s.submitted f h)
Step-InOrder (ends e) h = rw e at h

-- In every state that the interleavings reach, the tasks called, those swapped out and not
-- called yet, and those pending are, in this order, all tasks that were handed over, in the
-- order of the pushes: each is called once at most, and none is dropped.
pub Reach-InOrder : {s : System} → Reach s → InOrder s
Reach-InOrder here = refl
Reach-InOrder (next r st) = Step-InOrder st (Reach-InOrder r)

module _ (tasks : ℕ → List ℕ) where
  -- What the tasks of a list queue.
  abbrev pub queued_by : List ℕ → List ℕ
  queued_by [] = []
  queued_by (f ∷ fs) = tasks f ++ queued_by fs

  -- The loop calls `fs`, and `new` has been queued meanwhile, each task with a wakeup.
  abbrev pub Ran : List ℕ → List ℕ → EventLoop → EventLoop → Type 0
  Ran fs new s t =
      (t.executed ≡ s.executed ++ fs)
      × (t.pending_functors ≡ s.pending_functors ++ new)
      × (t.wakeup_count ≡ s.wakeup_count + length new)
      × (t.calling_pending_functors ≡ true)

  Ran-trans :
      (fs gs xs ys : List ℕ) (s t u : EventLoop)
      → Ran fs xs s t
      → Ran gs ys t u
      → Ran (fs ++ gs) (xs ++ ys) s u
  Ran-trans fs gs xs ys s t u a b = (
    b.0 ∙ ap (λ (l : List ℕ). l ++ gs) a.0 ∙ append_assoc s.executed fs gs,
    b.1 ∙ ap (λ (l : List ℕ). l ++ ys) a.1 ∙ append_assoc s.pending_functors xs ys,
    omega (arith, a.2, b.2, length-append xs ys),
    b.3,
  )

  queue-Ran :
      (s : EventLoop) (f : ℕ)
      → s.calling_pending_functors ≡ true
      → Ran [] (f ∷ []) s (queue_in_loop true s f)
  unfolding queue_in_loop
  queue-Ran s f c = ground (arith, append-nil s.executed)

  queue_all-Ran :
      (s : EventLoop) (new : List ℕ)
      → s.calling_pending_functors ≡ true
      → Ran [] new s (queue_all s new)
  queue_all-Ran s [] c =
      (sym (append-nil s.executed), sym (append-nil s.pending_functors), omega arith, c)
  queue_all-Ran s (f ∷ fs) c =
      let first = queue-Ran s f c in
      Ran-trans [] [] (f ∷ []) fs s (queue_in_loop true s f) (queue_all (queue_in_loop true s f) fs)
        first (queue_all-Ran (queue_in_loop true s f) fs first.3)

  run_functors-Ran :
      (s : EventLoop) (fs : List ℕ)
      → s.calling_pending_functors ≡ true
      → Ran fs (queued_by fs) s (run_functors tasks s fs)
  unfolding run_functors run_functor
  run_functors-Ran s [] c =
      (sym (append-nil s.executed), sym (append-nil s.pending_functors), omega arith, c)
  run_functors-Ran s (f ∷ fs) c =
      let called : Ran (f ∷ []) [] s (call s f) =
        (refl, sym (append-nil s.pending_functors), omega arith, c) in
      let queued = queue_all-Ran (call s f) (tasks f) c in
      Ran-trans (f ∷ []) fs (tasks f) (queued_by fs) s (queue_all (call s f) (tasks f))
        (run_functors tasks (queue_all (call s f) (tasks f)) fs)
        (Ran-trans (f ∷ []) [] [] (tasks f) s (call s f) (queue_all (call s f) (tasks f)) called
          queued)
        (run_functors-Ran (queue_all (call s f) (tasks f)) fs queued.3)

  -- With no other thread in between, `do_pending_functors` calls exactly the tasks that were
  -- pending, in order; what these queue is pending afterwards and has not been called, each
  -- such task has made one wakeup, and the flag of the call is off.
  pub do_pending_functors-Ran :
      (s : EventLoop)
      → let t = do_pending_functors tasks s in
        (t.executed ≡ s.executed ++ s.pending_functors)
        × (t.pending_functors ≡ queued_by s.pending_functors)
        × (t.wakeup_count ≡ s.wakeup_count + length (queued_by s.pending_functors))
        × (t.calling_pending_functors ≡ false)
  unfolding do_pending_functors swap_pending
  do_pending_functors-Ran s =
      let r = run_functors-Ran (swap_pending s).1 s.pending_functors refl in (r.0, r.1, r.2, refl)
