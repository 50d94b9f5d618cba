-- ===== src/AsyncLogging.antt =====
-- matelib/base/AsyncLogging.h and matelib/base/AsyncLogging.cc: the buffers that pass log lines
-- from the threads that write them to the thread that keeps the file. Both sides hold the mutex
-- while they touch the shared buffers, so each of their turns is one step. A buffer that has been
-- moved from is `none`; to use it is a fault.
pub mod Ready
pub mod Turn
pub mod Complete
mod Tests
use matelib.Prelude.{
  ℕ, zero, suc, ◌+◌, ◌-◌, Bool, true, false, not, ◌&&◌, ◌||◌, List, [], ◌∷◌, ◌++◌, Option, none,
  some, ◌>>=◌, ◌>>◌, assert, ltb, ◌==◌, if◌then◌else◌, length, take,
}
use matelib.LogStream.{FixedBuffer, make, avail, contents, append, reset, bzero}

-- What the threads share. `buffer_size` is `kLargeBuffer`.
pub record Front : Type 0 where
  pub buffer_size : ℕ
  pub current_buffer : Option FixedBuffer
  pub next_buffer : Option FixedBuffer
  pub full_buffers : List FixedBuffer

-- With the two spare buffers of `threadFunc`, the bytes that the log file has been given, and the
-- number of buffers that have been thrown away.
pub record AsyncLogging : Type 0 where
  pub front : Front
  pub new_buffer1 : Option FixedBuffer
  pub new_buffer2 : Option FixedBuffer
  pub log : List ℕ
  pub discarded : ℕ

-- The constructor, and the buffers with which `threadFunc` begins.
unfoldable pub start : ℕ → AsyncLogging
unfolding bzero
start size = record {
  front = record {
    buffer_size = size;
    current_buffer = some (bzero (make size));
    next_buffer = some (bzero (make size));
    full_buffers = [];
  };
  new_buffer1 = some (bzero (make size));
  new_buffer2 = some (bzero (make size));
  log = [];
  discarded = 0;
}

-- `nextBuffer_` if it is there, a new buffer otherwise.
abbrev pub spare : ℕ → Option FixedBuffer → FixedBuffer
spare size none = make size
spare size (some b) = b

-- `AsyncLogging::append`
pub append_line : Front → List ℕ → Option Front
append_line f line = do
  current ← f.current_buffer
  if ltb (length line) (avail current)
      then (do b ← append current line; some (record f { current_buffer = some b }))
      else (do
        b ← append (spare f.buffer_size f.next_buffer) line
        some (record f {
          current_buffer = some b;
          next_buffer = none;
          full_buffers = f.full_buffers ++ (current ∷ []);
        }))

-- Whether the wait for the condition ends: `while (fullBuffers_.empty() && running_)`, with the
-- break for a current buffer that is not empty.
abbrev pub is_null : List FixedBuffer → Bool
is_null [] = true
is_null (b ∷ bs) = false

pub wakes : Front → Bool → Option Bool
wakes f running = do
  current ← f.current_buffer
  some (not (is_null f.full_buffers && running) || ltb 0 current.cur)

abbrev pub is_fresh : Option FixedBuffer → Bool
is_fresh none = false
is_fresh (some b) = b.cur == 0

abbrev pub or_else : Option FixedBuffer → Option FixedBuffer → Option FixedBuffer
or_else none b = b
or_else (some a) b = some a

-- What is left of `newBuffer2` when `nextBuffer_` may have taken it.
abbrev pub left_over : Option FixedBuffer → Option FixedBuffer → Option FixedBuffer
left_over none b = none
left_over (some a) b = b

abbrev pub all_contents : List FixedBuffer → List ℕ
all_contents [] = []
all_contents (b ∷ bs) = contents b ++ all_contents bs

-- `newBuffer = std::move(buffersToWrite.back()); pop_back(); newBuffer->reset();` if it is null.
-- `back()` of an empty vector is a fault.
abbrev pub split_last : List FixedBuffer → Option (List FixedBuffer × FixedBuffer)
split_last [] = none
split_last (b ∷ []) = some ([], b)
split_last (b ∷ (c ∷ cs)) = do (front, last) ← split_last (c ∷ cs); some (b ∷ front, last)

pub refill : Option FixedBuffer → List FixedBuffer → Option (FixedBuffer × List FixedBuffer)
unfolding reset
refill (some b) buffers = some (b, buffers)
refill none buffers = do (front, last) ← split_last buffers; some (reset last, front)

module _ (discard_text : ℕ → List ℕ) where
  -- One turn of `threadFunc` behind its wait: the buffers are collected, written to the file, and
  -- two of them become the spare ones. More than 25 are too many; only two of them are kept, and
  -- the file is told of the others by a text.
  unfoldable pub thread_turn : AsyncLogging → Option AsyncLogging
  unfolding refill
  thread_turn s = do
    assert (is_fresh s.new_buffer1)
    assert (is_fresh s.new_buffer2)
    current ← f.current_buffer
    let collected = f.full_buffers ++ (current ∷ [])
    let too_many = ltb 25 (length collected)
    let to_write = if too_many then take 2 collected else collected
    let notice = if too_many then discard_text (length collected - 2) else []
    (new1, buffers1) ← refill none (take 2 to_write)
    (new2, buffers2) ← refill (left_over f.next_buffer s.new_buffer2) buffers1
    some (record s {
      front = record f {
        current_buffer = s.new_buffer1;
        next_buffer = or_else f.next_buffer s.new_buffer2;
        full_buffers = [];
      };
      new_buffer1 = some new1;
      new_buffer2 = some new2;
      log = s.log ++ (notice ++ all_contents to_write);
      discarded = s.discarded + (if too_many then length collected - 2 else 0);
    })
    where
      f : Front
      f = s.front

-- What happens, in the order of the mutex: a line is appended, or the file's thread takes a turn.
pub data Event : Type 0 where
  appends : List ℕ → Event
  turn : Event

module _ (discard_text : ℕ → List ℕ) where
  unfoldable pub step : AsyncLogging → Event → Option AsyncLogging
  unfolding thread_turn
  step s (appends line) = do f ← append_line s.front line; some (record s { front = f })
  step s turn = thread_turn discard_text s

  unfoldable pub run : AsyncLogging → List Event → Option AsyncLogging
  unfolding step
  run s [] = some s
  run s (e ∷ es) = do s' ← step s e; run s' es
