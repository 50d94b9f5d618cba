-- ===== src/EventLoopThread.antt =====
-- matelib/EventLoopThread.h and matelib/EventLoopThread.cc: a thread that makes a loop and runs it,
-- and the thread that starts it and waits for the loop.
pub mod Start
mod Tests
use matelib.Prelude.{ℕ, ◌≡◌, Bool, true, false, List, [], ◌∷◌, Option, none, some, if◌then◌else◌}

-- Where `threadFunc` is: not started; before its callback; before it publishes the loop; in `loop()`.
pub data ThreadPlace : Type 0 where
  absent initialising publishing looping : ThreadPlace

-- Where `start` is: not called; at the test of `loop_` with the mutex; in `cond_.wait`; returned.
pub data StarterPlace : Type 0 where
  before testing waiting : StarterPlace
  returned : ℕ → StarterPlace

-- `own` is the loop on the thread's stack. `initialised` records the loops for which the callback
-- ran.
pub record EventLoopThread : Type 0 where
  pub own : ℕ
  pub has_callback : Bool
  pub loop : Option ℕ
  pub thread : ThreadPlace
  pub starter : StarterPlace
  pub initialised : List ℕ

abbrev pub fresh : ℕ → Bool → EventLoopThread
fresh own has_callback = record {
  own = own;
  has_callback = has_callback;
  loop = none;
  thread = absent;
  starter = before;
  initialised = [];
}

-- `cond_.notify()`
abbrev pub woken : StarterPlace → StarterPlace
woken waiting = testing
woken place = place

-- The callback, if there is one.
abbrev pub call_back : EventLoopThread → List ℕ
call_back s = if s.has_callback then s.own ∷ s.initialised else s.initialised

-- `while (loop_ == nullptr) cond_.wait();`
abbrev pub tested : Option ℕ → StarterPlace
tested none = waiting
tested (some loop) = returned loop

-- The steps of the two threads.
pub data Work (s : EventLoopThread) : EventLoopThread → Type 0 where
  starts :
      s.starter ≡ before
      → s.thread ≡ absent
      → Work s (record s { starter = testing; thread = initialising })
  initialises :
      s.thread ≡ initialising → Work s (record s { thread = publishing; initialised = call_back s })
  publishes :
      s.thread ≡ publishing
      → Work s (record s { thread = looping; loop = some s.own; starter = woken s.starter })
  tests : s.starter ≡ testing → Work s (record s { starter = tested s.loop })

-- The wait may also end to no purpose.
pub data Step (s : EventLoopThread) : EventLoopThread → Type 0 where
  works : {t : EventLoopThread} → Work s t → Step s t
  wakes : s.starter ≡ waiting → Step s (record s { starter = testing })

pub data Reach (own : ℕ) (has_callback : Bool) : EventLoopThread → Type 0 where
  here : Reach own has_callback (fresh own has_callback)
  next : {s t : EventLoopThread} → Reach own has_callback s → Step s t → Reach own has_callback t
