-- ===== src/EventLoopThread/Start.antt =====
-- `EventLoopThread::start` of matelib/EventLoopThread.cc.
use matelib.Prelude.{
  ℕ, suc, ◌+◌, ◌-◌, ◌*◌, ◌≤◌, ◌<◌, ◌≡◌, refl, ap, ◌∙◌, ◌⊎◌, inl, inr, Bool, [], ◌∷◌, Option, none,
  some, arith, if◌then◌else◌,
}
use mathlib.Core.Path.{subst}
use matelib.Prelude.Inevitable.{Inevitably, Inevitably-of_measure}
use matelib.EventLoopThread.{
  ThreadPlace, absent, initialising, publishing, looping, StarterPlace, before, testing, waiting,
  returned, EventLoopThread, woken, call_back, tested, Work, starts, initialises, publishes, tests,
  works, wakes, Reach, here, next,
}

-- The callback has run for the loop if there is one.
abbrev pub IsInitialised : EventLoopThread → Type 0
IsInitialised s = s.initialised ≡ (if s.has_callback then s.own ∷ [] else [])

-- What holds of the thread at each of its places.
abbrev pub ThreadOk : EventLoopThread → ThreadPlace → Type 0
ThreadOk s absent = (s.loop ≡ none) × (s.initialised ≡ [])
ThreadOk s initialising = (s.loop ≡ none) × (s.initialised ≡ [])
ThreadOk s publishing = (s.loop ≡ none) × IsInitialised s
ThreadOk s looping = (s.loop ≡ some s.own) × IsInitialised s

abbrev pub rank : ThreadPlace → ℕ
rank absent = 0
rank initialising = 1
rank publishing = 2
rank looping = 3

-- And of its starter: it has returned the loop that was published, and does not sleep when there is
-- one.
abbrev pub StarterOk : ℕ → ℕ → StarterPlace → Type 0
StarterOk own rank before = rank ≡ 0
StarterOk own rank testing = 0 < rank
StarterOk own rank waiting = (0 < rank) × (rank < 3)
StarterOk own rank (returned loop) = (loop ≡ own) × (rank ≡ 3)

pub record IsSound (s : EventLoopThread) : Type 0 where
  pub thread_ok : ThreadOk s s.thread
  pub starter_ok : StarterOk s.own (rank s.thread) s.starter

-- The thread goes on to a place before its loop.
goes_on-StarterOk :
    (own r : ℕ) (place : StarterPlace)
    → 0 < r
    → suc r < 3
    → StarterOk own r place
    → StarterOk own (suc r) place
goes_on-StarterOk own r before h k ok = absurd (omega arith)
goes_on-StarterOk own r testing h k ok = omega arith
goes_on-StarterOk own r waiting h k ok = (omega arith, omega arith)
goes_on-StarterOk own r (returned loop) h k (_, ok) = absurd (omega arith)

-- It publishes its loop, and wakes the starter.
woken-StarterOk :
    (own : ℕ) (place : StarterPlace) → StarterOk own 2 place → StarterOk own 3 (woken place)
woken-StarterOk own before ok = absurd (omega arith)
woken-StarterOk own testing ok = omega arith
woken-StarterOk own waiting ok = omega arith
woken-StarterOk own (returned loop) (_, ok) = absurd (omega arith)

tested-StarterOk :
    (s : EventLoopThread) (place : ThreadPlace)
    → ThreadOk s place
    → 0 < rank place
    → StarterOk s.own (rank place) (tested s.loop)
tested-StarterOk s absent ok h = absurd (omega arith)
tested-StarterOk s initialising (none_yet, _) h = rw none_yet (omega arith, omega arith)
tested-StarterOk s publishing (none_yet, _) h = rw none_yet (omega arith, omega arith)
tested-StarterOk s looping (there, _) h = rw there (refl, refl)

at :
    {s : EventLoopThread} {place : ThreadPlace}
    → IsSound s
    → s.thread ≡ place
    → ThreadOk s place × StarterOk s.own (rank place) s.starter
at {s} h e = (
  subst (ThreadOk s) e h.thread_ok,
  subst (λ p. StarterOk s.own (rank p) s.starter) e h.starter_ok,
)

starter_at :
    {s : EventLoopThread} {place : StarterPlace}
    → IsSound s
    → s.starter ≡ place
    → StarterOk s.own (rank s.thread) place
starter_at {s} h e = subst (StarterOk s.own (rank s.thread)) e h.starter_ok

call_back-IsInitialised :
    (s : EventLoopThread)
    → s.initialised ≡ []
    → call_back s ≡ (if s.has_callback then s.own ∷ [] else [])
call_back-IsInitialised s e = rw e

-- A change of the starter alone leaves what holds of the thread.
same_thread :
    (s : EventLoopThread) (new : StarterPlace) (place : ThreadPlace)
    → ThreadOk s place
    → ThreadOk (record s { starter = new }) place
same_thread s new absent ok = ok
same_thread s new initialising ok = ok
same_thread s new publishing ok = ok
same_thread s new looping ok = ok

Work-IsSound : {s t : EventLoopThread} → Work s t → IsSound s → IsSound t
Work-IsSound (starts e e') h = record { thread_ok = (at h e').0; starter_ok = omega arith }
Work-IsSound {s} (initialises e) h =
    let (ok, starter) = at h e in
    record {
      thread_ok = (ok.0, call_back-IsInitialised s ok.1);
      starter_ok = goes_on-StarterOk s.own 1 s.starter (omega arith) (omega arith) starter;
    }
Work-IsSound {s} (publishes e) h =
    let (ok, starter) = at h e in
    record { thread_ok = (refl, ok.1); starter_ok = woken-StarterOk s.own s.starter starter }
Work-IsSound {s} (tests e) h = record {
  thread_ok = same_thread s (tested s.loop) s.thread h.thread_ok;
  starter_ok = tested-StarterOk s s.thread h.thread_ok (starter_at h e);
}

pub Reach-IsSound :
    {own : ℕ} {has_callback : Bool} {s : EventLoopThread} → Reach own has_callback s → IsSound s
Reach-IsSound here = record { thread_ok = (refl, refl); starter_ok = refl }
Reach-IsSound (next r (works w)) = Work-IsSound w (Reach-IsSound r)
Reach-IsSound (next {s} r (wakes e)) =
    let h = Reach-IsSound r in
    record {
      thread_ok = same_thread s testing s.thread h.thread_ok;
      starter_ok = (starter_at h e).0;
    }

-- `start` has returned the loop of the thread, which is in its `loop()`, with the callback run.
pub record IsStarted (s : EventLoopThread) : Type 0 where
  pub returns : s.starter ≡ returned s.own
  pub runs : s.thread ≡ looping
  pub initialised : IsInitialised s

-- How far both are from there.
starter_rank : StarterPlace → ℕ
starter_rank before = 3
starter_rank testing = 2
starter_rank waiting = 1
starter_rank (returned loop) = 0

measure : EventLoopThread → ℕ
unfolding starter_rank
measure s = 2 * (3 - rank s.thread) + starter_rank s.starter

woken-rank : (place : StarterPlace) → starter_rank (woken place) ≤ starter_rank place + 1
unfolding starter_rank
woken-rank before = omega arith
woken-rank testing = omega arith
woken-rank waiting = omega arith
woken-rank (returned loop) = omega arith

tested-rank : (loop : Option ℕ) → starter_rank (tested loop) < 2
unfolding starter_rank
tested-rank none = omega arith
tested-rank (some loop) = omega arith

Work-measure : {s t : EventLoopThread} → Work s t → measure t < measure s
unfolding measure starter_rank
Work-measure (starts e e') = omega (arith, ap rank e', ap starter_rank e)
Work-measure (initialises e) = omega (arith, ap rank e)
Work-measure {s} (publishes e) = omega (arith, ap rank e, woken-rank s.starter)
Work-measure {s} (tests e) = omega (arith, ap starter_rank e, tested-rank s.loop)

place_of_rank :
    (s : EventLoopThread) (place : ThreadPlace)
    → s.thread ≡ place
    → 0 < rank place
    → rank place < 3
    → (t : EventLoopThread) × Work s t
place_of_rank s absent e low high = absurd (omega arith)
place_of_rank s initialising e low high = (_, initialises e)
place_of_rank s publishing e low high = (_, publishes e)
place_of_rank s looping e low high = absurd (omega arith)

absent_of_rank : (place : ThreadPlace) → rank place ≡ 0 → place ≡ absent
absent_of_rank absent e = refl
absent_of_rank initialising e = absurd (omega arith)
absent_of_rank publishing e = absurd (omega arith)
absent_of_rank looping e = absurd (omega arith)

looping_of_rank : (place : ThreadPlace) → rank place ≡ 3 → place ≡ looping
looping_of_rank absent e = absurd (omega arith)
looping_of_rank initialising e = absurd (omega arith)
looping_of_rank publishing e = absurd (omega arith)
looping_of_rank looping e = refl

-- A loop is returned only when it has started.
returned-IsStarted :
    (s : EventLoopThread) → IsSound s → (loop : ℕ) → s.starter ≡ returned loop → IsStarted s
returned-IsStarted s h loop e =
    let (own, last) = starter_at h e in
    let runs = looping_of_rank s.thread last in
    record { returns = e ∙ ap returned own; runs = runs; initialised = (at h runs).0.1 }

-- There is always a step until `start` has returned.
progress : (s : EventLoopThread) → IsSound s → IsStarted s ⊎ ((t : EventLoopThread) × Work s t)
progress s h = by_place s.starter refl
  where
    by_place :
        (place : StarterPlace)
        → s.starter ≡ place
        → IsStarted s ⊎ ((t : EventLoopThread) × Work s t)
    by_place before e = inr (_, starts e (absent_of_rank s.thread (starter_at h e)))
    by_place testing e = inr (_, tests e)
    by_place waiting e =
        let (low, high) = starter_at h e in inr (place_of_rank s s.thread refl low high)
    by_place (returned loop) e = inl (returned-IsStarted s h loop e)

-- What holds wherever the starter is: it has returned only a loop that has started.
abbrev pub ReturnsStarted : EventLoopThread → StarterPlace → Type 0
ReturnsStarted s (returned loop) = IsStarted s
ReturnsStarted s place = Unit {0}

Sound-ReturnsStarted :
    (s : EventLoopThread)
    → IsSound s
    → (place : StarterPlace) → s.starter ≡ place
    → ReturnsStarted s place
Sound-ReturnsStarted s h before e = tt
Sound-ReturnsStarted s h testing e = tt
Sound-ReturnsStarted s h waiting e = tt
Sound-ReturnsStarted s h (returned loop) e = returned-IsStarted s h loop e

-- In every state that a thread of a loop and its starter reach: if `start` has returned, it has
-- returned the thread's loop, the thread is about to run the loop or runs it, and the callback
-- has run for the loop exactly once if there is one, and not at all if there is none. And from
-- every such state, whichever of the two goes on while there are no more spurious wakeups, they
-- come to a state in which `start` has returned so.
pub start-Inevitably :
    {own : ℕ} {has_callback : Bool} {s : EventLoopThread}
    → Reach own has_callback s
    → ReturnsStarted s s.starter × Inevitably Work IsStarted s
start-Inevitably {s = s} r = (
  Sound-ReturnsStarted s (Reach-IsSound r) s.starter refl,
  Inevitably-of_measure Work IsStarted IsSound measure progress
      (λ s t w h. (Work-IsSound w h, Work-measure w)) (Reach-IsSound r),
)
