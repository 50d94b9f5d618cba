-- ===== src/LogFile/Rolling.antt =====
-- When matelib/base/LogFile.cc goes on to a new file, and what is in the files then.
use matelib.Prelude.{
  ℕ, suc, ◌+◌, ◌≡◌, Bool, not, ◌&&◌, ◌||◌, List, [], ◌∷◌, ◌++◌, ltb, leb, ◌==◌, if◌then◌else◌,
  length,
}
use matelib.LogFile.{File, LogFile, Outside, check_every_n, period, write_line}
use matelib.LogFile.Written.{TakesPart, TakesSome}

-- All that the files hold.
abbrev pub contents : List File → List ℕ
contents [] = []
contents (f ∷ fs) = f.content ++ contents fs

abbrev pub log : LogFile → List ℕ
log l = contents l.closed ++ l.file.content

-- The new file's `written_bytes` with the line.
abbrev pub size_with : LogFile → List ℕ → ℕ
size_with l bytes = l.file.written_bytes + length bytes

-- What the file that is opened at a second holds already.
abbrev pub reopened : ℕ → File → List ℕ
reopened now f = if now == f.second then f.content else []

-- A file is left when it has become too large, or at the check of every thousandth line when the
-- day is over.
abbrev pub rolls : LogFile → List ℕ → Outside → Bool
rolls l bytes out =
    ltb l.roll_size (size_with l bytes)
    || (leb check_every_n (suc l.count) && not (period out.check_time == l.start_of_period))

-- It goes on to a file of another name.
abbrev pub goes_on : LogFile → List ℕ → Outside → Bool
goes_on l bytes out = rolls l bytes out && not (out.roll_time == l.file.second)

-- What `append_unlocked` leaves: the line stands whole at the end of the file that was current; if
-- the log rolls, the banner stands behind it, in the same file if the second is still that of its
-- name, and at the start of the next file otherwise.
pub record Rolls (l : LogFile) (bytes : List ℕ) (out : Outside) (l' : LogFile) : Type 0 where
  pub grows : log l' ≡ log l ++ (bytes ++ (if rolls l bytes out then out.banner else []))
  pub leaves :
      contents l'.closed
      ≡ contents l.closed ++ (if goes_on l bytes out then l.file.content ++ bytes else [])

module _ (fwrite : ℕ → ℕ → ℕ) (part : TakesPart fwrite) (some_taken : TakesSome fwrite)
    (l : LogFile) (bytes : List ℕ) (out : Outside) where
  abbrev written : LogFile
  written = write_line fwrite l bytes
