-- ===== src/Primes/Spinning.antt =====
-- posix/thread_pool.c: main hands numbers to three threads through a shared variable, with a mutex
-- and no condition variable. `pthread_mutex_lock` waits while the mutex is held, also by the thread
-- itself. The steps form a relation.
pub mod Stuck
use lhq_linux_c.Base.{
  ℕ, zero, suc, ◌+◌, ◌-◌, ◌*◌, ◌/◌, ◌%◌, ◌^◌, ◌≤◌, ◌<◌, ◌≡◌, refl, sym, ap, ap₂, ◌∙◌, subst,
  fun_ext, ◌≢◌, ◌⊎◌, inl, inr, ◌↔◌, Bool, true, false, ◌&&◌, ◌||◌, not, Option, none, some, List,
  [], ◌∷◌, ◌++◌, map, arith, ltb, leb, ◌==◌, if◌then◌else◌, ltb→lt, lt→ltb, ==_iff, tests,
  Bool-cases, Option-cases, update, length, get_elem?, set, take, drop, replicate, length-append,
  length-set, length-replicate, length-take, length-drop, get_elem?-set_self, get_elem?-set_ne,
  lt_of_get_elem?, take-append, drop-append, take-append-drop, get_elem?-of_lt, ℤ, pos, negsuc,
  pos_part, neg_part, sub_ℕ, ◌≤ℤ◌, ◌<ℤ◌, ltb_ℤ, eqb_ℤ, leb_ℤ, wrap_int, ◌+ℤ◌, ◌-ℤ◌, IsInt, +ℤ_parts,
  -ℤ_parts, +ℤ-IsInt, -ℤ-IsInt, eq_of_parts, int_laws, first_free, Full, first_free_cases,
}
use lhq_linux_c.Primes

abbrev pub left : ℕ
left = 200

abbrev pub right : ℕ
right = 400

-- `n.flag`: 0, 1 and -1.
pub data Flag : Type 0 where
  taken : Flag
  filled : Flag
  over : Flag

-- Where main stands: in front of giving a number, in `while (n.flag != 0)` for a number given, or
-- behind the end mark.
pub data Main : Type 0 where
  gives : ℕ → Main
  waits : ℕ → Main
  joins : Main

-- `n`, the holder of the mutex, main, and what was printed.
pub record Shared : Type 0 where
  pub num : ℕ
  pub flag : Flag
  pub holder : Option ℕ
  pub main : Main
  pub printed : List ℕ

-- A round of thread `k`, or a step of main; each begins by locking the free mutex. `spins` is the
-- `continue` that does not unlock, and `leaves` the `break` that does not.
pub data Step (s : Shared) : Shared → Type 0 where
  searches :
      ℕ
      → s.holder ≡ none
      → s.flag ≡ taken
      → Step s
          (record s { printed = if Primes.flag s.num then s.printed ++ s.num ∷ [] else s.printed })
  spins : (k : ℕ) → s.holder ≡ none → s.flag ≡ filled → Step s (record s { holder = some k })
  leaves : (k : ℕ) → s.holder ≡ none → s.flag ≡ over → Step s (record s { holder = some k })
  puts :
      (i : ℕ)
      → s.holder ≡ none
      → s.main ≡ gives i
      → i < right
      → Step s (record s { num = i; flag = filled; main = waits i })
  waits_on : (i : ℕ) → s.holder ≡ none → s.main ≡ waits i → s.flag ≢ taken → Step s s
  goes_on :
      (i : ℕ)
      → s.holder ≡ none
      → s.main ≡ waits i
      → s.flag ≡ taken
      → Step s (record s { main = gives (suc i) })
  ends :
      (i : ℕ)
      → s.holder ≡ none
      → s.main ≡ gives i
      → right ≤ i
      → Step s (record s { flag = over; main = joins })

pub data Reach (s : Shared) : Shared → Type 0 where
  here : Reach s s
  then_step : {t u : Shared} → Reach s t → Step t u → Reach s u

unfoldable pub start : Shared
start = record { num = 0; flag = taken; holder = none; main = gives left; printed = [] }
