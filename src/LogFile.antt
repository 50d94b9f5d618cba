-- ===== src/LogFile.antt =====
-- matelib/base/LogFile.h and matelib/base/LogFile.cc: the file that log lines go to, and when it is
-- rolled and flushed. What `fwrite_unlocked` returns is a parameter: its `k`th call, given `n`
-- bytes, takes `fwrite k n` of them. What `time` returns is an argument of each call.
pub mod Written
pub mod Names
pub mod Rolling
pub mod Bounds
mod Tests
use matelib.Prelude.{
  ℕ, zero, suc, ◌+◌, ◌-◌, ◌*◌, ◌/◌, Bool, true, false, not, List, [], ◌∷◌, ◌++◌, ltb, leb, ◌==◌,
  if◌then◌else◌, length, take, drop,
}

-- `File`: the second in its name, the bytes that the file of that name holds, the number of those
-- written since it was opened, and whether they were flushed after the last of them.
pub record File : Type 0 where
  pub second : ℕ
  pub content : List ℕ
  pub written_bytes : ℕ
  pub flushed : Bool

-- A file of a new name.
abbrev pub new_file : ℕ → File
new_file now = record { second = now; content = []; written_bytes = 0; flushed = true }

abbrev pub flush_file : File → File
flush_file f = record f { flushed = true }

-- `fopen` with "ae" at the second `now`, when the file `f` has just been closed: if `f` has the same
-- name, it is opened again, and what it holds is kept.
abbrev pub open_file : ℕ → File → File
open_file now f =
    if now == f.second then record f { written_bytes = 0; flushed = true } else new_file now

-- The files that are behind then.
abbrev pub left_behind : ℕ → File → List File
left_behind now f = if now == f.second then [] else flush_file f ∷ []

-- `checkEveryN_` and `kRollPerSeconds_`
abbrev pub check_every_n : ℕ
check_every_n = 1000

abbrev pub roll_per_seconds : ℕ
roll_per_seconds = 24 * 60 * 60

-- Time `now` aligned to the start of its day.
abbrev pub period : ℕ → ℕ
period now = now / roll_per_seconds * roll_per_seconds

-- A file of a name other than the current one's is taken to be new: Names says when no two have the
-- same.
-- `closed` are the files before the current one, the oldest first; `io_calls` counts the calls of
-- `fwrite_unlocked`.
pub record LogFile : Type 0 where
  pub roll_size : ℕ
  pub flush_interval : ℕ
  pub start_of_period : ℕ
  pub last_roll : ℕ
  pub last_flush : ℕ
  pub count : ℕ
  pub file : File
  pub closed : List File
  pub io_calls : ℕ

-- What one call of `append` reads from outside: the time of the check, the time at which a file is
-- rolled, and the text that is put at its start.
pub record Outside : Type 0 where
  pub check_time : ℕ
  pub roll_time : ℕ
  pub banner : List ℕ

module _ (fwrite : ℕ → ℕ → ℕ) where
  -- The loop of `File::append` over the bytes that remain: how many calls it makes, and how many
  -- bytes are taken.
  unfoldable pub write_rest : ℕ → ℕ → ℕ → ℕ × ℕ
  write_rest zero k remain = (0, 0)
  write_rest (suc fuel) k remain =
      let x = fwrite k remain in
      let (calls, n) = write_rest fuel (suc k) (remain - x) in
      if remain == 0 then (0, 0) else if x == 0 then (1, 0) else (suc calls, x + n)

  -- `File::append`: the file, and the number of calls.
  unfoldable pub append_file : ℕ → File → List ℕ → File × ℕ
  append_file k f bytes =
      let len = length bytes in
      let n = fwrite k len in
      let (calls, m) = write_rest len (suc k) (len - n) in
      (
        record f {
          content = f.content ++ take (n + m) bytes;
          written_bytes = f.written_bytes + (n + m);
          flushed = false;
        },
        suc calls,
      )

  -- `file_->append(...)`
  abbrev pub write_line : LogFile → List ℕ → LogFile
  write_line l bytes =
      let (f, calls) = append_file l.io_calls l.file bytes in
      record l { file = f; io_calls = l.io_calls + calls }

  -- `rollFile`
  unfoldable pub roll_file : LogFile → ℕ → List ℕ → LogFile
  roll_file l now banner =
      write_line
        (record l {
          last_roll = now;
          last_flush = now;
          start_of_period = period now;
          file = open_file now l.file;
          closed = l.closed ++ left_behind now l.file;
        })
        banner

  -- The check that is made once in `check_every_n` lines.
  unfoldable pub check : LogFile → Outside → LogFile
  check l out =
      if not (period out.check_time == l.start_of_period)
      then roll_file l out.roll_time out.banner
      else if ltb l.flush_interval (out.check_time - l.last_flush)
      then record l { last_flush = out.check_time; file = flush_file l.file }
      else l

  -- `append_unlocked`
  unfoldable pub append_unlocked : LogFile → List ℕ → Outside → LogFile
  append_unlocked l bytes out =
      let l' = write_line l bytes in
      if ltb l'.roll_size l'.file.written_bytes
      then record (roll_file l' out.roll_time out.banner) { count = 0 }
      else if leb check_every_n (suc l'.count)
      then check (record l' { count = 0 }) out
      else record l' { count = suc l'.count }
