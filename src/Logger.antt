-- ===== src/Logger.antt =====
-- matelib/base/Logging.h and matelib/base/Logging.cc: a log line, from its time to its file and line.
-- What `localtime` and `strftime` make of a second is a parameter.
pub mod Lines
mod Tests
use matelib.Prelude.{
  ℕ, zero, suc, ◌+◌, ◌-◌, Bool, true, false, List, [], ◌∷◌, ◌++◌, Option, none, some, ◌>>=◌, leb,
  ◌==◌, if◌then◌else◌, length, replicate, get_or,
}
use matelib.Prelude.Text.{codes, decimal}
use matelib.LogStream.{FixedBuffer, make, contents, Item, text, char, integer, pos, write_all}

pub data LogLevel : Type 0 where
  debug info warn error nonlog : LogLevel

abbrev pub level_number : LogLevel → ℕ
level_number debug = 0
level_number info = 1
level_number warn = 2
level_number error = 3
level_number nonlog = 4

-- `LogLevelName`
abbrev pub level_name : LogLevel → List ℕ
level_name debug = codes "DEBUG  "
level_name info = codes " INFO  "
level_name warn = codes " WARN  "
level_name error = codes "ERROR  "
level_name nonlog = []

-- The test of the macros `LOG_*`.
abbrev pub is_enabled : LogLevel → LogLevel → Bool
is_enabled log_level level = leb (level_number log_level) (level_number level)

-- `t_lastCache` and `t_time` of a thread.
pub record ThreadClock : Type 0 where
  pub last_cache : ℕ
  pub time : List ℕ

abbrev pub no_clock : ThreadClock
no_clock = record { last_cache = 0; time = [] }

-- What `strrchr(file, '/') + 1` points to, if there is a slash.
abbrev pub or_this : Option (List ℕ) → Bool → List ℕ → Option (List ℕ)
or_this (some behind) slash rest = some behind
or_this none slash rest = if slash then some rest else none

unfoldable pub behind_slash : List ℕ → Option (List ℕ)
behind_slash [] = none
behind_slash (c ∷ cs) = or_this (behind_slash cs) (c == b'/') cs

abbrev pub or_whole : Option (List ℕ) → List ℕ → List ℕ
or_whole (some name) file = name
or_whole none file = file

-- `basename_`
abbrev pub basename : List ℕ → List ℕ
basename file = or_whole (behind_slash file) file

-- `snprintf(buf, sizeof buf, ".%06d ", usec)`
abbrev pub micros_text : ℕ → List ℕ
micros_text usec =
    codes "." ++ (replicate (6 - length (decimal usec)) b'0' ++ (decimal usec ++ codes " "))

-- A line: when and where it is made, and what is written to its stream.
pub record Line : Type 0 where
  pub sec : ℕ
  pub usec : ℕ
  pub tid : List ℕ
  pub level : LogLevel
  pub file : List ℕ
  pub line : ℕ
  pub items : List Item

-- `kSmallBuffer`
abbrev pub small_buffer : ℕ
small_buffer = 4096

-- `Impl::Impl` after `formatTime` has set `time`, and `Impl::finish`.
abbrev pub front_items : List ℕ → Line → List Item
front_items time l =
    text time ∷ (text (micros_text l.usec) ∷ (text l.tid ∷ (text (level_name l.level) ∷ [])))

abbrev pub back_items : Line → List Item
back_items l =
    text (codes " - ")
    ∷ (text (basename l.file) ∷ (char b':' ∷ (integer (pos l.line) ∷ (char b'\n' ∷ []))))

module _ (time_text : ℕ → List ℕ) where
  -- `formatTime` up to its writes.
  unfoldable pub format_time : ThreadClock → ℕ → ThreadClock
  format_time clock sec =
      if clock.last_cache == sec then clock else record { last_cache = sec; time = time_text sec }

  -- A `Logger` from its constructor to its destructor: the bytes that it gives to the output.
  unfoldable pub log_line : ThreadClock → Line → Option (List ℕ × ThreadClock)
  log_line clock l = do
    let clock' = format_time clock l.sec
    b ← write_all (make small_buffer) (front_items clock'.time l)
    b' ← write_all b l.items
    b'' ← write_all b' (back_items l)
    some (contents b'', clock')

  -- The lines of one thread.
  unfoldable pub log_lines : ThreadClock → List Line → Option (List (List ℕ) × ThreadClock)
  log_lines clock [] = some ([], clock)
  log_lines clock (l ∷ ls) = do
    (bytes, clock') ← log_line clock l
    (rest, clock'') ← log_lines clock' ls
    some (bytes ∷ rest, clock'')
