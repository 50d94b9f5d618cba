-- ===== src/LogFile/Names.antt =====
-- The seconds in the names of the files of matelib/base/LogFile.cc.
use matelib.Prelude.{
  ℕ, suc, ◌-◌, ◌≤◌, ◌<◌, ◌≡◌, inl, inr, List, [], ◌∷◌, ◌++◌, append-nil, arith, ltb, leb, ◌==◌,
  Bool-cases,
}
use matelib.LogFile.{
  File, open_file, flush_file, LogFile, Outside, check_every_n, period, write_line, roll_file,
  check, append_unlocked,
}
use matelib.LogFile.Written.{second-append_file}

-- The files have names of seconds before `now`.
abbrev pub AllBefore : ℕ → List File → Type 0
AllBefore now [] = Unit {0}
AllBefore now (f ∷ fs) = (f.second < now) × AllBefore now fs

-- The current file has the latest name, and no other has the same.
abbrev pub IsNamed : LogFile → Type 0
IsNamed l = AllBefore l.file.second l.closed

AllBefore-later : (m n : ℕ) (fs : List File) → m ≤ n → AllBefore m fs → AllBefore n fs
AllBefore-later m n [] le h = tt
AllBefore-later m n (f ∷ fs) le (first, h) = (omega arith, AllBefore-later m n fs le h)

AllBefore-append :
    (now : ℕ) (fs : List File) (f : File)
    → AllBefore now fs
    → f.second < now
    → AllBefore now (fs ++ (f ∷ []))
AllBefore-append now [] f h k = (k, tt)
AllBefore-append now (g ∷ fs) f (first, h) k = (first, AllBefore-append now fs f h k)

module _ (fwrite : ℕ → ℕ → ℕ) where
  rolled-IsNamed :
      (l : LogFile) (now : ℕ) (banner : List ℕ)
      → IsNamed l
      → l.file.second ≤ now
      → IsNamed (roll_file fwrite l now banner)
  unfolding roll_file
  rolled-IsNamed l now banner h le =
      rw (second-append_file fwrite l.io_calls (open_file now l.file) banner)
        (elim (Bool-cases (now == l.file.second)) [
          | inl same ↦ rw (same, append-nil l.closed) h
          | inr other ↦ rw other (
              AllBefore-append now l.closed (flush_file l.file)
                (AllBefore-later l.file.second now l.closed le h) (ground arith))
        ])

  module _ (l : LogFile) (bytes : List ℕ) (out : Outside) (h : IsNamed l)
      (le : l.file.second ≤ out.roll_time) where
    abbrev written : LogFile
    written = write_line fwrite l bytes

    name : written.file.second ≡ l.file.second
    name = second-append_file fwrite l.io_calls l.file bytes

    written-IsNamed : IsNamed written
    written-IsNamed = rw name h

    checked-IsNamed : IsNamed (check fwrite (record written { count = 0 }) out)
    unfolding check
    checked-IsNamed = elim (Bool-cases (period out.check_time == l.start_of_period)) [
      | inl same_day ↦ elim (Bool-cases (ltb l.flush_interval (out.check_time - l.last_flush))) [
        | inl late ↦ rw (same_day, late) written-IsNamed
        | inr early ↦ rw (same_day, early) written-IsNamed
      ]
      | inr next_day ↦ rw next_day (
          rolled-IsNamed (record written { count = 0 }) out.roll_time out.banner written-IsNamed
            (rw name le))
    ]

    -- If the clock is not set back, the current file goes on to have a name that is later than
    -- those of all files before it.
    pub append_unlocked-IsNamed : IsNamed (append_unlocked fwrite l bytes out)
    unfolding append_unlocked
    append_unlocked-IsNamed = elim (Bool-cases (ltb l.roll_size written.file.written_bytes)) [
      | inl large ↦
          rw large (rolled-IsNamed written out.roll_time out.banner written-IsNamed (rw name le))
      | inr small ↦ elim (Bool-cases (leb check_every_n (suc l.count))) [
        | inl due ↦ rw (small, due) checked-IsNamed
        | inr early ↦ rw (small, early) written-IsNamed
      ]
    ]
