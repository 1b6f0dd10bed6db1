-- ===== src/Timers/Alarm/Deadlines.antt =====
-- An independent description of timers: a clock, and for each timer the time at which it is due.
use lhq_linux_c.Base.{
  ℕ, zero, suc, ◌+◌, Bool, false, Option, none, some, List, [], ◌∷◌, leb, if◌then◌else◌, ℤ, pos,
  negsuc,
}
use lhq_linux_c.Timers.Alarm.{Calls, Op, sets, alarm}

-- `due` is none for a timer that never fires.
pub record Entry : Type 0 where
  pub func : ℕ
  pub arg : ℕ
  pub due : Option ℕ

-- A timer set at a time for a number of seconds: it fires at the next alarm at the earliest, and
-- never where the number is negative.
unfoldable pub deadline : ℕ → ℤ → Option ℕ
deadline now (pos zero) = some (suc now)
deadline now (pos (suc s)) = some (now + suc s)
deadline now (negsuc s) = none

unfoldable pub is_due : ℕ → Option ℕ → Bool
is_due now none = false
is_due now (some d) = leb d now

-- The timers that stay at the time `now`, and the calls of those that are due.
unfoldable pub fire : ℕ → List (Option Entry) → List (Option Entry) × Calls
fire now [] = ([], [])
fire now (none ∷ es) = let (es', calls) = fire now es in (none ∷ es', calls)
fire now (some e ∷ es) =
    let (es', calls) = fire now es in
    if is_due now e.due then (none ∷ es', (e.func, e.arg) ∷ calls) else (some e ∷ es', calls)

-- The first free slot gets the entry.
unfoldable pub add : Entry → List (Option Entry) → List (Option Entry)
add e [] = []
add e (none ∷ es) = some e ∷ es
add e (some x ∷ es) = some x ∷ add e es

unfoldable pub spec : List Op → ℕ → List (Option Entry) → List Calls
spec [] now es = []
spec (sets allocated sec func arg ∷ ops) now es =
    let added = spec ops now (add (record { func = func; arg = arg; due = deadline now sec }) es) in
    let kept = spec ops now es in if allocated then added else kept
spec (alarm ∷ ops) now es = (fire (suc now) es).1 ∷ spec ops (suc now) ((fire (suc now) es).0)
