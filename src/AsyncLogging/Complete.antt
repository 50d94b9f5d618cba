-- ===== src/AsyncLogging/Complete.antt =====
-- Runs of matelib/base/AsyncLogging.cc: lines from any thread and turns of the file's thread, in
-- any order.
use matelib.Prelude.{
  ℕ, ◌≤◌, ◌<◌, ◌≡◌, refl, sym, ap, ◌∙◌, List, [], ◌∷◌, ◌++◌, Option, some, ◌>>=◌, arith, length,
  append-nil, append_assoc,
}
use matelib.LogStream.{FixedBuffer}
use matelib.AsyncLogging.{AsyncLogging, Event, appends, turn, step, run}
use matelib.AsyncLogging.Ready.{IsFree, pending, append_line-IsReady}
use matelib.AsyncLogging.Turn.{IsWorking, thread_turn-IsWorking}

-- The lines of a sequence of events.
abbrev pub lines : List Event → List ℕ
lines [] = []
lines (appends line ∷ es) = line ++ lines es
lines (turn ∷ es) = lines es

-- Every line is shorter than a buffer.
abbrev pub AllShort : ℕ → List Event → Type 0
AllShort size [] = Unit {0}
AllShort size (appends line ∷ es) = (length line < size) × AllShort size es
AllShort size (turn ∷ es) = AllShort size es

-- Nothing fails, and what the file has and what is pending is all that was logged.
abbrev pub Logs : AsyncLogging → List ℕ → Option AsyncLogging → Type 0
Logs s logged made =
    (s' : AsyncLogging) × (made ≡ some s')
    × IsWorking s'
    × (s'.front.buffer_size ≡ s.front.buffer_size)
    × (s.discarded ≤ s'.discarded)
    × (s'.discarded ≡ s.discarded
        → s'.log ++ pending s'.front ≡ (s.log ++ pending s.front) ++ logged)

module _ (discard_text : ℕ → List ℕ) where
  append-Logs :
      (s : AsyncLogging) (line : List ℕ)
      → IsWorking s
      → length line < s.front.buffer_size
      → Logs s line (step discard_text s (appends line))
  unfolding step
  append-Logs s line w short =
      let (f, e, r, p, n) = append_line-IsReady s.front line w.front short in
      (
        record s { front = f },
        rw e,
        record { front = r; first = resized n w.first; second = resized n w.second },
        n,
        omega arith,
        λ same. ap (◌++◌ s.log) p ∙ sym (append_assoc s.log (pending s.front) line),
      )
    where
      resized : {m n : ℕ} {ob : Option FixedBuffer} → n ≡ m → IsFree m ob → IsFree n ob
      resized e (b, at, empty, sized) = (b, at, empty, sized ∙ sym e)

  turn-Logs : (s : AsyncLogging) → IsWorking s → Logs s [] (step discard_text s turn)
  unfolding step
  turn-Logs s w =
      let (s', e, w', n, d, log) = thread_turn-IsWorking discard_text s w in
      (s', e, w', n, d, λ same. log same ∙ sym (append-nil (s.log ++ pending s.front)))

  -- One event, and then the others.
  Logs-then :
      (s : AsyncLogging) (line rest : List ℕ) (es : List Event) (made : Option AsyncLogging)
      → Logs s line made
      → ((s' : AsyncLogging)
          → IsWorking s'
          → s'.front.buffer_size ≡ s.front.buffer_size
          → Logs s' rest (run discard_text s' es))
      → Logs s (line ++ rest) (do s' ← made; run discard_text s' es)
  Logs-then s line rest es made (s', e, w, n, d, log) go =
      let (s'', e', w', n', d', log') = go s' w n in
      (
        s'',
        rw e e',
        w',
        n' ∙ n,
        omega (arith, d, d'),
        λ same.
            log' (omega (arith, d, d', same))
            ∙ ap (λ (t : List ℕ). t ++ rest) (log (omega (arith, d, d', same)))
            ∙ append_assoc (s.log ++ pending s.front) line rest,
      )

  -- From a working state, for every sequence of lines that are shorter than a buffer and turns
  -- of the file's thread, nothing fails: no buffer is used that has been moved away, and no
  -- spare buffer is taken from an empty list. As long as no buffer has been thrown away, the
  -- bytes given to the file and those pending are together what they were before with all
  -- lines behind them, in order.
  pub run-Logs :
      (s : AsyncLogging) (es : List Event)
      → IsWorking s
      → AllShort s.front.buffer_size es
      → Logs s (lines es) (run discard_text s es)
  unfolding run
  run-Logs s [] w short =
      (s, refl, w, refl, omega arith, λ same. sym (append-nil (s.log ++ pending s.front)))
  run-Logs s (appends line ∷ es) w (short, shorts) =
      Logs-then s line (lines es) es (step discard_text s (appends line))
        (append-Logs s line w short) (λ s' w' n. run-Logs s' es w' (rw n shorts))
  run-Logs s (turn ∷ es) w shorts =
      Logs-then s [] (lines es) es (step discard_text s turn) (turn-Logs s w)
        (λ s' w' n. run-Logs s' es w' (rw n shorts))
