-- ===== src/EventLoopThread/Tests.antt =====
-- A thread whose starter has gone to sleep, and one whose starter has returned.
use matelib.Prelude.{true, refl, some, [], ◌∷◌}
use matelib.Prelude.Inevitable.{Inevitably}
use matelib.EventLoopThread.{
  EventLoopThread, fresh, initialising, looping, waiting, returned, Work, starts, initialises,
  publishes, tests, works, Reach, here, next,
}
use matelib.EventLoopThread.Start.{IsStarted, start-Inevitably}

abbrev asleep : EventLoopThread
asleep = record (fresh 7 true) { thread = initialising; starter = waiting }

asleep-Reach : Reach 7 true asleep
asleep-Reach = next (next here (works (starts refl refl))) (works (tests refl))

-- `start` has returned.
abbrev back : EventLoopThread
back = record (fresh 7 true) {
  thread = looping;
  loop = some 7;
  starter = returned 7;
  initialised = 7 ∷ [];
}

back-Reach : Reach 7 true back
back-Reach =
    next (next (next asleep-Reach (works (initialises refl))) (works (publishes refl)))
      (works (tests refl))

start-Inevitably_example : IsStarted back × Inevitably Work IsStarted back
start-Inevitably_example = start-Inevitably back-Reach
