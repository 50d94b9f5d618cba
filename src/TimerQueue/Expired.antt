-- ===== src/TimerQueue/Expired.antt =====
-- Which timers `getExpired` of matelib/TimerQueue.cc takes out of the set.
use matelib.Prelude.{ℕ, ◌≤◌, ◌<◌, ◌≡◌, refl, true, List, [], ◌∷◌, ◌++◌, some, arith}
use matelib.TimerQueue.EntrySet.{Entry, insert, below, from, split-append}
use matelib.TimerQueue.{TimerQueue, max_pointer, end_is_later, get_expired}

abbrev pub AllDue : ℕ → List Entry → Type 0
AllDue now [] = Unit {0}
AllDue now ((w, p) ∷ es) = (w ≤ now) × AllDue now es

abbrev pub AllLater : ℕ → List Entry → Type 0
AllLater now [] = Unit {0}
AllLater now ((w, p) ∷ es) = (now < w) × AllLater now es

-- Every key is `w` or later.
abbrev pub AllFrom : ℕ → List Entry → Type 0
AllFrom w [] = Unit {0}
AllFrom w ((v, p) ∷ es) = (w ≤ v) × AllFrom w es

-- The keys rise, and the pointers are real ones.
abbrev pub IsOrdered : List Entry → Type 0
IsOrdered [] = Unit {0}
IsOrdered ((w, p) ∷ es) = AllFrom w es × (p < max_pointer) × IsOrdered es

below-AllDue : (now : ℕ) (es : List Entry) → AllDue now (below (now, max_pointer) es)
unfolding below
below-AllDue now [] = tt
below-AllDue now ((w, p) ∷ es) = ground (arith, below-AllDue now es)

AllFrom-AllLater : (w now : ℕ) (es : List Entry) → now < w → AllFrom w es → AllLater now es
AllFrom-AllLater w now [] lt h = tt
AllFrom-AllLater w now ((v, p) ∷ es) lt h = (omega (arith, h.0), AllFrom-AllLater w now es lt h.1)

from-AllLater :
    (now : ℕ) (es : List Entry) → IsOrdered es → AllLater now (from (now, max_pointer) es)
unfolding from
from-AllLater now [] h = tt
from-AllLater now ((w, p) ∷ es) h =
    ground (arith, from-AllLater now es h.2, AllFrom-AllLater w now es)

AllFrom-insert :
    (w v p : ℕ) (es : List Entry) → w ≤ v → AllFrom w es → AllFrom w (insert (v, p) es).0
unfolding insert
AllFrom-insert w v p [] le h = (le, tt)
AllFrom-insert w v p ((u, r) ∷ es) le h = ground (arith, AllFrom-insert w v p es)

AllFrom-mono : (w v : ℕ) (es : List Entry) → w ≤ v → AllFrom v es → AllFrom w es
AllFrom-mono w v [] le h = tt
AllFrom-mono w v ((u, p) ∷ es) le h = (omega (arith, h.0), AllFrom-mono w v es le h.1)

-- An insertion keeps the set in order.
pub insert-IsOrdered :
    (v p : ℕ) (es : List Entry) → p < max_pointer → IsOrdered es → IsOrdered (insert (v, p) es).0
unfolding insert
insert-IsOrdered v p [] lt h = (tt, lt, tt)
insert-IsOrdered v p ((u, r) ∷ es) lt h =
    ground (arith, insert-IsOrdered v p es lt h.2, AllFrom-insert u v p es, AllFrom-mono v u es)

later_holds : (now : ℕ) (es : List Entry) → AllLater now es → end_is_later es now ≡ true
later_holds now [] h = refl
later_holds now ((w, p) ∷ es) h = ground arith

-- For a set in the order of its keys whose pointers are below `UINTPTR_MAX`, `get_expired`
-- passes its assert and splits the set in two: the timers handed out are all due, the timers
-- kept are all later than now, and together they are the set in its order.
pub get_expired-exact :
    (q : TimerQueue) (now : ℕ)
    → IsOrdered q.timers
    → (es : List Entry) × (q' : TimerQueue) × (get_expired q now ≡ some (es, q'))
      × (es ++ q'.timers ≡ q.timers)
      × AllDue now es
      × AllLater now q'.timers
unfolding get_expired
get_expired-exact q now h =
    let rest : AllLater now (from (now, max_pointer) q.timers) = from-AllLater now q.timers h in
    (
      below (now, max_pointer) q.timers,
      record q { timers = from (now, max_pointer) q.timers },
      rw (later_holds now (from (now, max_pointer) q.timers) rest),
      split-append (now, max_pointer) q.timers,
      below-AllDue now q.timers,
      rest,
    )
