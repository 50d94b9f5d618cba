-- ===== src/EventLoopThreadPool.antt =====
-- matelib/EventLoopThreadPool.h and matelib/EventLoopThreadPool.cc: the loops of a server's threads,
-- handed out in turn. A loop is the number of its thread; `none` is a failed assert or an index out
-- of range.
pub mod Turns
mod Tests
use matelib.Prelude.{
  ℕ, zero, suc, ◌+◌, ◌%◌, Bool, true, false, not, List, [], ◌∷◌, ◌++◌, Option, none, some, ◌>>=◌,
  ◌>>◌, assert, ltb, ◌==◌, ◌&&◌, if◌then◌else◌, get_elem?,
}

pub record EventLoopThreadPool : Type 0 where
  pub started : Bool
  pub thread_num : ℕ
  pub next : ℕ
  pub base_loop : ℕ
  pub loops : List ℕ

abbrev pub fresh : ℕ → ℕ → EventLoopThreadPool
fresh base thread_num = record {
  started = false;
  thread_num = thread_num;
  next = 0;
  base_loop = base;
  loops = [];
}

-- The loop of `start`: the `i`th thread started gives the loop `threads i`.
start_from : (ℕ → ℕ) → ℕ → ℕ → List ℕ → List ℕ
start_from threads i zero loops = loops
start_from threads i (suc n) loops = start_from threads (suc i) n (loops ++ (threads i ∷ []))

-- `start`: the pool, and the loops for which it called the callback itself, in the caller's thread.
pub start : (ℕ → ℕ) → Bool → EventLoopThreadPool → Option (EventLoopThreadPool × List ℕ)
unfolding start_from
start threads has_callback p = do
  assert (not p.started)
  let loops = start_from threads 0 p.thread_num p.loops
  let called = if (p.thread_num == 0) && has_callback then p.base_loop ∷ [] else []
  some (record p { started = true; loops = loops }, called)

pub get_next_loop : EventLoopThreadPool → Option (ℕ × EventLoopThreadPool)
get_next_loop p =
    if ltb 0 p.thread_num
    then (do
      loop ← get_elem? p.loops p.next
      some (loop, record p { next = (p.next + 1) % p.thread_num }))
    else some (p.base_loop, p)

-- Several calls of `getNextLoop`.
pub get_next_loops : ℕ → EventLoopThreadPool → Option (List ℕ × EventLoopThreadPool)
unfolding get_next_loop
get_next_loops zero p = some ([], p)
get_next_loops (suc k) p = do
  (loop, p') ← get_next_loop p
  (loops, p'') ← get_next_loops k p'
  some (loop ∷ loops, p'')
