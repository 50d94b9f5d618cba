-- ===== src/Logger/Lines.antt =====
-- The lines that matelib/base/Logging.cc gives to the output.
use matelib.Prelude.{ℕ, ◌+◌, ◌≤◌, ◌≡◌, ◌≢◌, List, [], ◌∷◌, ◌++◌, length}
use matelib.Prelude.Text.{codes}
use matelib.LogStream.{pos, convert_int, Item}
use matelib.LogStream.Room.{AllShort, all_texts}
use matelib.Logger.{
  level_name, basename, micros_text, ThreadClock, Line, small_buffer, front_items, back_items,
}

-- What is written for a line whose time is `time`.
abbrev pub line_items : List ℕ → Line → List Item
line_items time l = front_items time l ++ (l.items ++ back_items l)

module _ (time_text : ℕ → List ℕ) where
  -- The text of a line, part by part, with its time formatted anew.
  abbrev pub line_text : Line → List ℕ
  line_text l =
      time_text l.sec
      ++ (micros_text l.usec
          ++ (l.tid
              ++ (level_name l.level
                  ++ (all_texts l.items
                      ++ (codes " - "
                          ++ (basename l.file
                              ++ (codes ":" ++ (convert_int (pos l.line) ++ codes "\n"))))))))

  -- A line that fits the buffer, with the slack of a number.
  abbrev pub Fits : Line → Type 0
  Fits l = AllShort l.items × (length (line_text l) + 32 ≤ small_buffer) × (l.sec ≢ 0)

  abbrev pub AllFit : List Line → Type 0
  AllFit [] = Unit {0}
  AllFit (l ∷ ls) = Fits l × AllFit ls

  abbrev pub line_texts : List Line → List (List ℕ)
  line_texts [] = []
  line_texts (l ∷ ls) = line_text l ∷ line_texts ls

  -- The cache holds the text of its second, unless nothing was formatted yet.
  abbrev pub IsCached : ThreadClock → Type 0
  IsCached clock = clock.last_cache ≢ 0 → clock.time ≡ time_text clock.last_cache
