-- ===== src/LogFile/Bounds.antt =====
-- The sizes of the files of matelib/base/LogFile.cc.
use matelib.Prelude.{
  ℕ, suc, ◌+◌, ◌-◌, ◌≤◌, ◌<◌, ◌≢◌, ne→==_false, refl, inl, inr, List, [], ◌∷◌, ◌++◌, arith, ltb,
  leb, ◌==◌, length, Bool-cases, ltb_false→le, lt_of_leb-false,
}
use matelib.LogFile.{
  File, new_file, flush_file, LogFile, Outside, check_every_n, period, write_line, roll_file, check,
  append_unlocked,
}
use matelib.LogFile.Names.{IsNamed, append_unlocked-IsNamed}
use matelib.LogFile.Written.{TakesPart, IsCounted, second-append_file, append_file-IsCounted}

-- Files of at most `size` bytes, whose counters are right.
abbrev pub AllWithin : ℕ → List File → Type 0
AllWithin size [] = Unit {0}
AllWithin size (f ∷ fs) = (IsCounted f × (f.written_bytes ≤ size)) × AllWithin size fs

AllWithin-append :
    (size : ℕ) (fs : List File) (f : File)
    → AllWithin size fs
    → IsCounted f × (f.written_bytes ≤ size)
    → AllWithin size (fs ++ (f ∷ []))
AllWithin-append size [] f h k = (k, tt)
AllWithin-append size (g ∷ fs) f (h, hs) k = (h, AllWithin-append size fs f hs k)

-- The current file is within `rollSize_`, and those before it pass over it by less than a line of
-- `line` bytes.
pub record IsBounded (line : ℕ) (l : LogFile) : Type 0 where
  pub counted : IsCounted l.file
  pub current : l.file.written_bytes ≤ l.roll_size
  pub before : AllWithin (l.roll_size + line) l.closed
  pub checks : l.count < check_every_n

module _ (fwrite : ℕ → ℕ → ℕ) (part : TakesPart fwrite) (line : ℕ) (bytes : List ℕ) (out : Outside)
    (fits : length bytes ≤ line) where
  -- A file that is not larger than `rollSize_` and a line is left for one that holds the banner.
  rolled-IsBounded :
      (l : LogFile) (now : ℕ)
      → IsCounted l.file
      → l.file.written_bytes ≤ l.roll_size + line
      → AllWithin (l.roll_size + line) l.closed
      → length out.banner ≤ l.roll_size
      → l.count < check_every_n
      → now ≢ l.file.second
      → IsBounded line (roll_file fwrite l now out.banner)
  unfolding roll_file
  rolled-IsBounded l now counted size before short checks late =
      let (counted', size') =
        append_file-IsCounted fwrite part l.io_calls (new_file now) out.banner refl in
      let other = ne→==_false now l.file.second late in
      rw other (record {
        counted = counted';
        current = omega arith;
        before =
            AllWithin-append (l.roll_size + line) l.closed (flush_file l.file) before
              (counted, size);
        checks = checks;
      })

  module _ (l : LogFile) (h : IsBounded line l) (short : length out.banner ≤ l.roll_size)
      (late : l.file.second < out.roll_time) where
    abbrev written : LogFile
    written = write_line fwrite l bytes

    line_written :
        IsCounted written.file × (written.file.written_bytes ≤ l.file.written_bytes + length bytes)
    line_written = append_file-IsCounted fwrite part l.io_calls l.file bytes h.counted

    later : out.roll_time ≢ written.file.second
    later = rw (second-append_file fwrite l.io_calls l.file bytes) (λ e. absurd (omega arith))

    checked-IsBounded :
        written.file.written_bytes ≤ l.roll_size
        → IsBounded line (check fwrite (record written { count = 0 }) out)
    unfolding check
    checked-IsBounded small = elim (Bool-cases (period out.check_time == l.start_of_period)) [
      | inl same_day ↦ elim (Bool-cases (ltb l.flush_interval (out.check_time - l.last_flush))) [
        | inl late ↦
            rw (same_day, late)
              (record {
                counted = line_written.0;
                current = small;
                before = h.before;
                checks = omega arith;
              })
        | inr early ↦
            rw (same_day, early)
              (record {
                counted = line_written.0;
                current = small;
                before = h.before;
                checks = omega arith;
              })
      ]
      | inr next_day ↦ rw next_day (
          rolled-IsBounded (record written { count = 0 }) out.roll_time line_written.0 (omega arith)
            h.before short (omega arith) later)
    ]

    unlocked-IsBounded : IsBounded line (append_unlocked fwrite l bytes out)
    unfolding append_unlocked
    unlocked-IsBounded = elim (Bool-cases (ltb l.roll_size written.file.written_bytes)) [
      | inl large ↦
          let r =
            rolled-IsBounded written out.roll_time line_written.0
              (omega (arith, line_written.1, h.current)) h.before short h.checks later in
          rw large (record {
            counted = r.counted;
            current = r.current;
            before = r.before;
            checks = omega arith;
          })
      | inr small ↦ elim (Bool-cases (leb check_every_n (suc l.count))) [
        | inl due ↦ rw (small, due) (checked-IsBounded (ltb_false→le _ _ small))
        | inr early ↦
            rw (small, early)
              (record {
                counted = line_written.0;
                current = ltb_false→le _ _ small;
                before = h.before;
                checks = lt_of_leb-false check_every_n (suc l.count) early;
              })
      ]
    ]

    -- If `fwrite` takes no more bytes than it is given, failures included, each line has at
    -- most `line` bytes, the banner fits `rollSize_`, the current file has a later second in
    -- its name than all files before it, and a roll would fall into a later second still:
    -- `append_unlocked` keeps the current file within `rollSize_`, all files before it
    -- within `rollSize_` and one line, the counters of bytes right, fewer than a thousand
    -- lines since the last check, and the current file's name the latest.
    pub append_unlocked-IsBounded :
        IsNamed l
        → IsBounded line (append_unlocked fwrite l bytes out)
          × IsNamed (append_unlocked fwrite l bytes out)
    append_unlocked-IsBounded named =
        (unlocked-IsBounded, append_unlocked-IsNamed fwrite l bytes out named (omega arith))
