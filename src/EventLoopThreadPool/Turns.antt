-- ===== src/EventLoopThreadPool/Turns.antt =====
-- The loops that `getNextLoop` of matelib/EventLoopThreadPool.cc hands out.
use matelib.Prelude.{
  ℕ, zero, suc, ◌+◌, ◌%◌, ◌<◌, ◌≡◌, refl, sym, ap, ◌∙◌, Bool, true, List, [], ◌∷◌, ◌++◌, some,
  arith, length, get_elem?, lt→ltb, le→ltb_false, append_assoc, ◌&&◌, ◌==◌, append-nil, replicate,
  if◌then◌else◌,
}
use native.Mathlib.Nat.{mod-add-mod}
use matelib.EventLoopThreadPool.{
  EventLoopThreadPool, fresh, start_from, start, get_next_loop, get_next_loops,
}

-- The loops of `n` threads, in the order of their start.
abbrev pub loops_from : (ℕ → ℕ) → ℕ → ℕ → List ℕ
loops_from threads i zero = []
loops_from threads i (suc n) = threads i ∷ loops_from threads (suc i) n

length-loops_from : (threads : ℕ → ℕ) (i n : ℕ) → length (loops_from threads i n) ≡ n
length-loops_from threads i zero = refl
length-loops_from threads i (suc n) = ap suc (length-loops_from threads (suc i) n)

start_from-loops_from :
    (threads : ℕ → ℕ) (i n : ℕ) (loops : List ℕ)
    → start_from threads i n loops ≡ loops ++ loops_from threads i n
unfolding start_from
start_from-loops_from threads i zero loops = sym (append-nil loops)
start_from-loops_from threads i (suc n) loops =
    start_from-loops_from threads (suc i) n (loops ++ (threads i ∷ []))
    ∙ append_assoc loops (threads i ∷ []) (loops_from threads (suc i) n)

-- The pool after its start, when `next` calls have been made since the last turn began.
abbrev pub running : (ℕ → ℕ) → ℕ → ℕ → ℕ → EventLoopThreadPool
running threads base n next = record {
  started = true;
  thread_num = n;
  next = next;
  base_loop = base;
  loops = loops_from threads 0 n;
}

pub start-running :
    (threads : ℕ → ℕ) (base n : ℕ) (has_callback : Bool)
    → start threads has_callback (fresh base n)
      ≡ some (running threads base n 0, if (n == 0) && has_callback then base ∷ [] else [])
unfolding start
start-running threads base n has_callback = rw (start_from-loops_from threads 0 n []) refl

get_elem?-loops_from :
    (threads : ℕ → ℕ) (i n j : ℕ)
    → j < n
    → get_elem? (loops_from threads i n) j ≡ some (threads (i + j))
get_elem?-loops_from threads i zero j h = absurd (omega arith)
get_elem?-loops_from threads i (suc n) zero h =
    ap (λ k. some (threads k)) {x = i} {y = i + 0} (omega arith)
get_elem?-loops_from threads i (suc n) (suc j) h =
    get_elem?-loops_from threads (suc i) n j (omega arith)
    ∙ ap (λ k. some (threads k)) {x = suc i + j} {y = i + suc j} (omega arith)

pub get_next_loop-running :
    (threads : ℕ → ℕ) (base n next : ℕ)
    → next < n
    → get_next_loop (running threads base n next)
      ≡ some (threads next, running threads base n ((next + 1) % n))
unfolding get_next_loop
get_next_loop-running threads base n next h = rw (lt→ltb 0 n (omega arith), found) refl
  where
    found : get_elem? (loops_from threads 0 n) next ≡ some (threads next)
    found =
        get_elem?-loops_from threads 0 n next h
        ∙ ap (λ k. some (threads k)) {x = 0 + next} {y = next} (omega arith)

-- The number of the `k`th loop handed out is `k` modulo the number of threads.
abbrev pub in_turn : (ℕ → ℕ) → ℕ → ℕ → ℕ → List ℕ
in_turn threads n from zero = []
in_turn threads n from (suc k) = threads (from % n) ∷ in_turn threads n (suc from) k

get_next_loops-in_turn :
    (threads : ℕ → ℕ) (base n k from : ℕ)
    → 0 < n
    → get_next_loops k (running threads base n (from % n))
      ≡ some (in_turn threads n from k, running threads base n ((from + k) % n))
unfolding get_next_loops
get_next_loops-in_turn threads base n zero from h =
    ap (λ j. some ([], running threads base n (j % n))) {x = from} {y = from + 0} (omega arith)
get_next_loops-in_turn threads base n (suc k) from h =
    let wraps : (from % n + 1) % n ≡ suc from % n =
      mod-add-mod from n 1 ∙ ap (λ j. j % n) {x = from + 1} {y = suc from} (omega arith) in
    let rest : get_next_loops k (running threads base n ((from % n + 1) % n))
        ≡ some (in_turn threads n (suc from) k, running threads base n ((from + suc k) % n)) =
      ap (λ j. get_next_loops k (running threads base n j)) wraps
      ∙ get_next_loops-in_turn threads base n k (suc from) h
      ∙ ap (λ j. some (in_turn threads n (suc from) k, running threads base n (j % n)))
          {x = suc from + k} {y = from + suc k} (omega arith) in
    rw (get_next_loop-running threads base n (from % n) (omega arith), rest)

-- Without threads it is the loop of the server.
pub get_next_loop-base :
    (p : EventLoopThreadPool) → p.thread_num ≡ 0 → get_next_loop p ≡ some (p.base_loop, p)
unfolding get_next_loop
get_next_loop-base p e = rw (le→ltb_false 0 p.thread_num (omega arith))

get_next_loops-base :
    (p : EventLoopThreadPool) (k : ℕ)
    → p.thread_num ≡ 0
    → get_next_loops k p ≡ some (replicate k p.base_loop, p)
unfolding get_next_loops
get_next_loops-base p zero e = refl
get_next_loops-base p (suc k) e = rw (get_next_loop-base p e, get_next_loops-base p k e)

-- What `k` calls after the start give.
abbrev pub turns : (ℕ → ℕ) → ℕ → ℕ → ℕ → List ℕ
turns threads base zero k = replicate k base
turns threads base (suc n) k = in_turn threads (suc n) 0 k

-- For every number of threads and of calls: `start` succeeds on a fresh pool and calls the
-- callback itself, for its own loop, exactly if there is a callback and no thread, and the calls
-- of `get_next_loop` that follow never fail and hand out the loops of the threads in turn, the
-- `k`th that of thread `k` modulo their number, or always the loop of the server if there are no
-- threads.
pub get_next_loops-turns :
    (threads : ℕ → ℕ) (base n k : ℕ) (has_callback : Bool)
    → (p : EventLoopThreadPool) × (q : EventLoopThreadPool) × (start threads has_callback
          (fresh base n)
        ≡ some (p, if (n == 0) && has_callback then base ∷ [] else []))
      × (get_next_loops k p ≡ some (turns threads base n k, q))
get_next_loops-turns threads base zero k has_callback =
    let p = running threads base 0 0 in
    (p, p, start-running threads base 0 has_callback, get_next_loops-base p k refl)
get_next_loops-turns threads base (suc n) k has_callback = (
  running threads base (suc n) 0,
  running threads base (suc n) ((0 + k) % suc n),
  start-running threads base (suc n) has_callback,
  ap (λ j. get_next_loops k (running threads base (suc n) j)) {x = 0} {y = 0 % suc n} (omega arith)
      ∙ get_next_loops-in_turn threads base (suc n) k 0 (omega arith),
)
