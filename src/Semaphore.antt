-- ===== src/Semaphore.antt =====
-- posix/semaphore/sem.c: a counting semaphore under a mutex. A section under the mutex is one step;
-- a caller that finds too little waits, and tries again after a later step.
pub mod Balance
mod Tests
use lhq_linux_c.Base.{
  ℕ, zero, suc, ◌+◌, ◌-◌, ◌*◌, ◌/◌, ◌%◌, ◌^◌, ◌≤◌, ◌<◌, ◌≡◌, refl, sym, ap, ap₂, ◌∙◌, subst,
  fun_ext, ◌≢◌, ◌⊎◌, inl, inr, ◌↔◌, Bool, true, false, ◌&&◌, ◌||◌, not, Option, none, some, List,
  [], ◌∷◌, ◌++◌, map, arith, ltb, leb, ◌==◌, if◌then◌else◌, ltb→lt, lt→ltb, ==_iff, tests,
  Bool-cases, Option-cases, update, length, get_elem?, set, take, drop, replicate, length-append,
  length-set, length-replicate, length-take, length-drop, get_elem?-set_self, get_elem?-set_ne,
  lt_of_get_elem?, take-append, drop-append, take-append-drop, get_elem?-of_lt, ℤ, pos, negsuc,
  pos_part, neg_part, sub_ℕ, ◌≤ℤ◌, ◌<ℤ◌, ltb_ℤ, eqb_ℤ, leb_ℤ, wrap_int, ◌+ℤ◌, ◌-ℤ◌, IsInt, +ℤ_parts,
  -ℤ_parts, +ℤ-IsInt, -ℤ-IsInt, eq_of_parts, int_laws, first_free, Full, first_free_cases,
}

-- `struct sem_t`, without its mutex and its condition variable.
pub record Sem : Type 0 where
  pub srcval : ℤ

-- `allocated` is whether malloc succeeds; `none` is exit(1).
unfoldable pub sem_init : Bool → ℤ → Option Sem
sem_init allocated n = if allocated then some (record { srcval = n }) else none

unfoldable pub sem_ret : ℤ → Sem → ℤ × Sem
sem_ret number s = (number, record { srcval = s.srcval +ℤ number })

-- `none` is a caller that waits.
unfoldable pub sem_sub : ℤ → Sem → Option (ℤ × Sem)
sem_sub number s =
    if ltb_ℤ s.srcval number then none else some (number, record { srcval = s.srcval -ℤ number })

-- The calls of the threads, in the order in which they pass the mutex.
pub data Op : Type 0 where
  ret : ℕ → Op
  sub : ℕ → Op

-- `none` is a sequence in which a call would have to wait.
unfoldable pub run : List Op → Sem → Option Sem
run [] s = some s
run (ret n ∷ ops) s = run ops ((sem_ret (pos n) s).1)
run (sub n ∷ ops) s = elim (sem_sub (pos n) s) [ none ↦ none | some (r, s') ↦ run ops s' ]
