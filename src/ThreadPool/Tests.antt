-- ===== src/ThreadPool/Tests.antt =====
-- A pool of one thread that is started, given two tasks and stopped.
use matelib.Prelude.{◌≡◌, refl, true, false}
use matelib.Prelude.Inevitable.{Inevitably}
use matelib.ThreadPool.{start}
use matelib.ThreadPool.Steps.{
  System, initial, run, stop, Work, Reach, here, next, starts, runs, stops,
}
use matelib.ThreadPool.Queue.{IsSound, Reach-IsSound}
use matelib.ThreadPool.Stop.{IsJoined, stop-Inevitably}

abbrev started : System
started = record (initial 1) {
  pool = record (initial 1).pool { running = true; threads = 1 };
  ready = 1;
}

started-Reach : Reach 1 started
unfolding start
started-Reach = next here (starts started.pool refl)

stopped-Reach : Reach 1 (stop (run (run started 7) 8))
stopped-Reach = next (next (next started-Reach (runs 7)) (runs 8)) stops

stopped_off : (stop (run (run started 7) 8)).pool.running ≡ false
unfolding stop
stopped_off = refl

Reach-IsSound_example : IsSound (stop (run (run started 7) 8))
Reach-IsSound_example = Reach-IsSound stopped-Reach

stop-Inevitably_example : Inevitably Work IsJoined (stop (run (run started 7) 8))
stop-Inevitably_example = stop-Inevitably stopped-Reach stopped_off
