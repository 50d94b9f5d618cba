-- ===== src/EventLoopThreadPool/Tests.antt =====
-- Five loops of a pool of two threads.
use matelib.Prelude.{ℕ, ◌+◌, ◌≡◌, true, [], ◌∷◌, some}
use matelib.EventLoopThreadPool.{EventLoopThreadPool, fresh, start, get_next_loops}
use matelib.EventLoopThreadPool.Turns.{get_next_loops-turns}

abbrev threads : ℕ → ℕ
threads i = 10 + i

get_next_loops-turns_example :
    (p : EventLoopThreadPool) × (q : EventLoopThreadPool) × (start threads true (fresh 1 2)
      ≡ some (p, []))
    × (get_next_loops 5 p ≡ some (10 ∷ 11 ∷ 10 ∷ 11 ∷ 10 ∷ [], q))
get_next_loops-turns_example = get_next_loops-turns threads 1 2 5 true
