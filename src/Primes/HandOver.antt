-- ===== src/Primes/HandOver.antt =====
-- posix/ai.c: main hands the numbers from LEFT up to RIGHT to three threads through one shared
-- variable, under a mutex and a condition variable. A section under the mutex is one step, up to a
-- wait that releases it; the scheduler and the choice of `pthread_cond_signal` are the events.
pub mod Order
pub mod Steps
pub mod Printed
use lhq_linux_c.Base.{
  ℕ, zero, suc, ◌+◌, ◌-◌, ◌*◌, ◌/◌, ◌%◌, ◌^◌, ◌≤◌, ◌<◌, ◌≡◌, refl, sym, ap, ap₂, ◌∙◌, subst,
  fun_ext, ◌≢◌, ◌⊎◌, inl, inr, ◌↔◌, Bool, true, false, ◌&&◌, ◌||◌, not, Option, none, some, List,
  [], ◌∷◌, ◌++◌, map, arith, ltb, leb, ◌==◌, if◌then◌else◌, ltb→lt, lt→ltb, ==_iff, tests,
  Bool-cases, Option-cases, update, length, get_elem?, set, take, drop, replicate, length-append,
  length-set, length-replicate, length-take, length-drop, get_elem?-set_self, get_elem?-set_ne,
  lt_of_get_elem?, take-append, drop-append, take-append-drop, get_elem?-of_lt, ℤ, pos, negsuc,
  pos_part, neg_part, sub_ℕ, ◌≤ℤ◌, ◌<ℤ◌, ltb_ℤ, eqb_ℤ, leb_ℤ, wrap_int, ◌+ℤ◌, ◌-ℤ◌, IsInt, +ℤ_parts,
  -ℤ_parts, +ℤ-IsInt, -ℤ-IsInt, eq_of_parts, int_laws, first_free, Full, first_free_cases,
}
use lhq_linux_c.Primes

abbrev pub thrdnum : ℕ
thrdnum = 3

abbrev pub left : ℕ
left = 200

abbrev pub right : ℕ
right = 400

-- `n.flag`: 0, 1 and -1.
pub data Flag : Type 0 where
  taken : Flag
  filled : Flag
  over : Flag

-- Where a thread stands: in front of the mutex, in `pthread_cond_wait`, testing a number that it
-- took, or ended.
pub data Worker : Type 0 where
  ready : Worker
  asleep : Worker
  testing : ℕ → Worker
  exited : Worker

-- Where main stands: in front of the mutex or in `pthread_cond_wait` with the next number to give,
-- where RIGHT is the end behind the loop; in `pthread_join`; or behind its last line.
pub data Main : Type 0 where
  gives : ℕ → Main
  sleeps : ℕ → Main
  joins : Main
  returned : Main

-- The shared variable, the threads, and what was printed.
pub record System : Type 0 where
  pub num : ℕ
  pub flag : Flag
  pub main : Main
  pub workers : List Worker
  pub printed : List ℕ

-- Who is woken by a signal.
pub data Waiter : Type 0 where
  nobody : Waiter
  the_main : Waiter
  the_worker : ℕ → Waiter

unfoldable pub rouse : Worker → Worker
rouse asleep = ready
rouse ready = ready
rouse (testing n) = testing n
rouse exited = exited

unfoldable pub rouse_main : Main → Main
rouse_main (sleeps i) = gives i
rouse_main (gives i) = gives i
rouse_main joins = joins
rouse_main returned = returned

abbrev pub sleeping : Worker → Bool
sleeping asleep = true
sleeping ready = false
sleeping (testing n) = false
sleeping exited = false

abbrev pub main_sleeping : Main → Bool
main_sleeping (sleeps i) = true
main_sleeping (gives i) = false
main_sleeping joins = false
main_sleeping returned = false

unfoldable pub some_sleeps : List Worker → Bool
some_sleeps [] = false
some_sleeps (w ∷ ws) = let rest = some_sleeps ws in sleeping w || rest

-- A wake-up of thread `k`; `none` where it does not wait.
unfoldable pub wake : ℕ → System → Option System
wake k s = elim (get_elem? s.workers k) [
  | none ↦ none
  | some w ↦ if sleeping w then some (record s { workers = set s.workers k ready }) else none
]

unfoldable pub wake_main : System → Option System
wake_main s = if main_sleeping s.main then some (record s { main = rouse_main s.main }) else none

-- `pthread_cond_signal` wakes one of those who wait; it wakes nobody only where nobody waits.
unfoldable pub signal : Waiter → System → Option System
signal nobody s = if main_sleeping s.main || some_sleeps s.workers then none else some s
signal the_main s = wake_main s
signal (the_worker k) s = wake k s

-- `pthread_cond_broadcast`.
unfoldable pub broadcast : System → System
broadcast s = record s { main = rouse_main s.main; workers = map rouse s.workers }

-- A step of thread `k`, which stands at `w`: the section under the mutex, or the test and the print.
unfoldable pub worker_at : ℕ → Waiter → Worker → System → Option System
worker_at k who asleep s = none
worker_at k who exited s = none
worker_at k who (testing n) s = some (record s {
  workers = set s.workers k ready;
  printed = if Primes.flag n then s.printed ++ n ∷ [] else s.printed;
})
worker_at k who ready s = elim s.flag [
  | over ↦ some (record s { workers = set s.workers k exited })
  | taken ↦ some (record s { workers = set s.workers k asleep })
  | filled ↦ signal who (record s { workers = set s.workers k (testing s.num); flag = taken })
]

unfoldable pub worker_step : ℕ → Waiter → System → Option System
worker_step k who s = elim (get_elem? s.workers k) [ none ↦ none | some w ↦ worker_at k who w s ]

unfoldable pub all_exited : List Worker → Bool
all_exited [] = true
all_exited (exited ∷ ws) = all_exited ws
all_exited (ready ∷ ws) = false
all_exited (asleep ∷ ws) = false
all_exited (testing n ∷ ws) = false

-- The section of main that gives number `i`, or ends the search behind the last one.
unfoldable pub give : ℕ → Waiter → System → Option System
give i who s = elim s.flag [
  | filled ↦ some (record s { main = sleeps i })
  | over ↦ some (record s { main = sleeps i })
  | taken ↦
      if ltb i right
      then signal who (record s { num = i; flag = filled; main = gives (suc i) })
      else some (broadcast (record s { flag = over; main = joins }))
]

unfoldable pub main_step : Waiter → System → Option System
main_step who s = elim s.main [
  | gives i ↦ give i who s
  | sleeps i ↦ none
  | joins ↦ if all_exited s.workers then some (record s { main = returned }) else none
  | returned ↦ none
]

-- What the scheduler does next; a wait may also end with no signal.
pub data Event : Type 0 where
  runs : ℕ → Waiter → Event
  main_runs : Waiter → Event
  spurious : ℕ → Event
  spurious_main : Event

unfoldable pub step : Event → System → Option System
step (runs k who) s = worker_step k who s
step (main_runs who) s = main_step who s
step (spurious k) s = wake k s
step spurious_main s = wake_main s

unfoldable pub run : List Event → System → Option System
run [] s = some s
run (e ∷ es) s = elim (step e s) [ none ↦ none | some s' ↦ run es s' ]

unfoldable pub start : System
start = record {
  num = 0;
  flag = taken;
  main = gives left;
  workers = replicate thrdnum ready;
  printed = [];
}
