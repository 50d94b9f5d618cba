-- ===== src/AsyncLogging/Tests.antt =====
-- The log's theorems at buffers of eight bytes.
use matelib.Prelude.{ℕ, refl, inl, List, [], ◌∷◌, arith}
use matelib.Prelude.Text.{codes}
use matelib.LogStream.{make, bzero}
use matelib.AsyncLogging.{start, Event, appends, turn, run}
use matelib.AsyncLogging.Turn.{IsWorking}
use matelib.AsyncLogging.Complete.{Logs, run-Logs}

start-IsWorking : IsWorking (start 8)
unfolding start bzero
start-IsWorking = record {
  front = record {
    current = make 8;
    at_current = refl;
    inside = omega arith;
    size = refl;
    sizes = tt;
    next = inl (make 8, refl, refl, refl);
  };
  first = (make 8, refl, refl, refl);
  second = (make 8, refl, refl, refl);
}

-- Three lines, of which the second has no room in the first buffer, and a turn of the file's
-- thread between them.
abbrev events : List Event
events =
    appends (codes "hello") ∷ (appends (codes "world") ∷ (turn ∷ (appends (codes "again") ∷ [])))

abbrev no_text : ℕ → List ℕ
no_text n = []

run-Logs_example : Logs (start 8) (codes "helloworldagain") (run no_text (start 8) events)
unfolding start
run-Logs_example =
    run-Logs no_text (start 8) events start-IsWorking
      (omega arith, (omega arith, (omega arith, tt)))
