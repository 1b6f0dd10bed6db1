-- ===== src/Timers/Alarm.antt =====
-- signal/anytimer/timer.c: a table of timers under SIGALRM. No other variable holds a pointer to a
-- timer, so the table holds the timers themselves. A function and its argument are numbers; the
-- functions are taken not to set timers.
pub mod Deadlines
pub mod Refine
pub mod Runs
use lhq_linux_c.Base.{
  ℕ, zero, suc, ◌+◌, ◌-◌, ◌*◌, ◌/◌, ◌%◌, ◌^◌, ◌≤◌, ◌<◌, ◌≡◌, refl, sym, ap, ap₂, ◌∙◌, subst,
  fun_ext, ◌≢◌, ◌⊎◌, inl, inr, ◌↔◌, Bool, true, false, ◌&&◌, ◌||◌, not, Option, none, some, List,
  [], ◌∷◌, ◌++◌, map, arith, ltb, leb, ◌==◌, if◌then◌else◌, ltb→lt, lt→ltb, ==_iff, tests,
  Bool-cases, Option-cases, update, length, get_elem?, set, take, drop, replicate, length-append,
  length-set, length-replicate, length-take, length-drop, get_elem?-set_self, get_elem?-set_ne,
  lt_of_get_elem?, take-append, drop-append, take-append-drop, get_elem?-of_lt, ℤ, pos, negsuc,
  pos_part, neg_part, sub_ℕ, ◌≤ℤ◌, ◌<ℤ◌, ltb_ℤ, eqb_ℤ, leb_ℤ, wrap_int, ◌+ℤ◌, ◌-ℤ◌, IsInt, +ℤ_parts,
  -ℤ_parts, +ℤ-IsInt, -ℤ-IsInt, eq_of_parts, int_laws, first_free, Full, first_free_cases,
}

abbrev pub maxsize : ℕ
maxsize = 1024

-- `struct timer`.
pub record Timer : Type 0 where
  pub tim_handler : ℕ
  pub sec : ℤ
  pub arg : ℕ

-- The calls of functions with their arguments.
abbrev pub Calls : Type 0
Calls = List (ℕ × ℕ)

abbrev pub Pool : Type 0
Pool = List (Option Timer)

-- `if (pool[i]->sec > 0) pool[i]->sec--;`
unfoldable pub count_down : Timer → Timer
count_down t = if ltb_ℤ (pos 0) t.sec then record t { sec = t.sec -ℤ pos 1 } else t

-- The body of the loop of `checkTimer` on a timer: what stays in the slot, and the call.
unfoldable pub check_slot : Timer → Option Timer × Calls
check_slot t =
    let t' = count_down t in
    if eqb_ℤ t'.sec (pos 0) then (none, (t'.tim_handler, t'.arg) ∷ []) else (some t', [])

-- `checkTimer`, with the calls in their order.
unfoldable pub check_timer : Pool → Pool × Calls
check_timer [] = ([], [])
check_timer (none ∷ ts) = let (ts', calls) = check_timer ts in (none ∷ ts', calls)
check_timer (some t ∷ ts) =
    let (ts', calls) = check_timer ts in
    let (slot, call) = check_slot t in (slot ∷ ts', call ++ calls)

unfoldable pub t_find_pos : Pool → ℤ
t_find_pos pool = first_free pool 0

-- `allocated` is whether malloc succeeds.
unfoldable pub set_timer : Bool → ℤ → ℕ → ℕ → Pool → ℤ × Pool
set_timer allocated sec func arg pool = elim (t_find_pos pool) [
  | negsuc k ↦ (negsuc 0, pool)
  | pos i ↦
      if allocated
      then (pos 0, set pool i (some (record { tim_handler = func; sec = sec; arg = arg })))
      else (negsuc 0, pool)
]

-- What a program does with its timers: a call of `setTimer`, or a signal.
pub data Op : Type 0 where
  sets : Bool → ℤ → ℕ → ℕ → Op
  alarm : Op

-- The calls that a sequence makes, each alarm with its own.
unfoldable pub run : List Op → Pool → List Calls
run [] pool = []
run (sets allocated sec func arg ∷ ops) pool = run ops ((set_timer allocated sec func arg pool).1)
run (alarm ∷ ops) pool = (check_timer pool).1 ∷ run ops ((check_timer pool).0)

unfoldable pub start : Pool
start = replicate maxsize none
