-- ===== src/Primes/Bounded.antt =====
-- posix/semaphore/main.c: a thread for each number, and a semaphore. A step is one of main, or one
-- of the three at the end of a thread: its output, its Sem_Ret, its pthread_exit.
pub mod Few
mod Tests
use lhq_linux_c.Base.{
  ℕ, zero, suc, ◌+◌, ◌-◌, ◌*◌, ◌/◌, ◌%◌, ◌^◌, ◌≤◌, ◌<◌, ◌≡◌, refl, sym, ap, ap₂, ◌∙◌, subst,
  fun_ext, ◌≢◌, ◌⊎◌, inl, inr, ◌↔◌, Bool, true, false, ◌&&◌, ◌||◌, not, Option, none, some, List,
  [], ◌∷◌, ◌++◌, map, arith, ltb, leb, ◌==◌, if◌then◌else◌, ltb→lt, lt→ltb, ==_iff, tests,
  Bool-cases, Option-cases, update, length, get_elem?, set, take, drop, replicate, length-append,
  length-set, length-replicate, length-take, length-drop, get_elem?-set_self, get_elem?-set_ne,
  lt_of_get_elem?, take-append, drop-append, take-append-drop, get_elem?-of_lt, ℤ, pos, negsuc,
  pos_part, neg_part, sub_ℕ, ◌≤ℤ◌, ◌<ℤ◌, ltb_ℤ, eqb_ℤ, leb_ℤ, wrap_int, ◌+ℤ◌, ◌-ℤ◌, IsInt, +ℤ_parts,
  -ℤ_parts, +ℤ-IsInt, -ℤ-IsInt, eq_of_parts, +ℤ-pos, -ℤ-pos, int_laws, first_free, Full,
  first_free_cases,
}
use lhq_linux_c.Semaphore.{Sem, sem_sub, sem_ret}
use lhq_linux_c.Primes.{flag}

abbrev pub left : ℕ
left = 1010

abbrev pub right : ℕ
right = 1210

abbrev pub thrdnum : ℕ
thrdnum = 4

-- The semaphore, the next number of the loop of main, the numbers of the threads that have not
-- printed yet, of those that have but have not returned what main took for them, and of those that
-- have returned it and still run, and what was printed.
pub record Search : Type 0 where
  pub sem : Sem
  pub next : ℕ
  pub testing : List ℕ
  pub holding : List ℕ
  pub leaving : List ℕ
  pub printed : List ℕ

-- What happens next: main goes on, where pthread_create succeeds or not, or the thread at a place of
-- its list does.
pub data Event : Type 0 where
  creates : Bool → Event
  prints : ℕ → Event
  gives_back : ℕ → Event
  leaves : ℕ → Event

pub data Next : Type 0 where
  waits : Next
  exits : Next
  goes : Search → Next

-- `Sem_Sub`, and the thread for the number.
unfoldable pub create : Bool → Search → Next
create made s = elim (sem_sub (pos 1) s.sem) [
  | none ↦ waits
  | some (r, sem) ↦
      if made
      then goes (record s { sem = sem; next = suc s.next; testing = s.testing ++ s.next ∷ [] })
      else exits
]

-- A list without its element at place `i`.
unfoldable pub without : ℕ → List ℕ → List ℕ
without i ns = take i ns ++ drop (suc i) ns

-- The test of `routine_GetPrime` and its output.
unfoldable pub print_thread : ℕ → Search → Next
print_thread i s = elim (get_elem? s.testing i) [
  | none ↦ waits
  | some n ↦ goes (record s {
    testing = without i s.testing;
    holding = s.holding ++ n ∷ [];
    printed = if flag n then s.printed ++ n ∷ [] else s.printed;
  })
]

-- Its `Sem_Ret`.
unfoldable pub return_thread : ℕ → Search → Next
return_thread i s = elim (get_elem? s.holding i) [
  | none ↦ waits
  | some n ↦ goes (record s {
    sem = (sem_ret (pos 1) s.sem).1;
    holding = without i s.holding;
    leaving = s.leaving ++ n ∷ [];
  })
]

-- Its `pthread_exit`.
unfoldable pub leave_thread : ℕ → Search → Next
leave_thread i s = elim (get_elem? s.leaving i) [
  | none ↦ waits
  | some n ↦ goes (record s { leaving = without i s.leaving })
]

unfoldable pub step : Event → Search → Next
step (creates made) s = if ltb s.next right then create made s else waits
step (prints i) s = print_thread i s
step (gives_back i) s = return_thread i s
step (leaves i) s = leave_thread i s

-- An event that cannot happen in a state leaves it.
unfoldable pub run : List Event → Search → Next
run [] s = goes s
run (e ∷ es) s = elim (step e s) [ waits ↦ run es s | exits ↦ exits | goes s' ↦ run es s' ]

unfoldable pub start : Search
start = record {
  sem = record { srcval = pos thrdnum };
  next = left;
  testing = [];
  holding = [];
  leaving = [];
  printed = [];
}
