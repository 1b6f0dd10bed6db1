-- ===== src/Primes.antt =====
-- posix/prime.c, posix/ai.c and posix/thread_pool.c: threads that search a range for primes. Here
-- stands the test of one number, which the three programs share, and the thread of prime.c; the
-- hand-over of numbers by ai.c is HandOver, and that of thread_pool.c is Spinning.
pub mod Divisors
pub mod HandOver
pub mod Spinning
pub mod Bounded
mod Tests
use lhq_linux_c.Base.{
  ℕ, zero, suc, ◌+◌, ◌-◌, ◌*◌, ◌/◌, ◌%◌, ◌^◌, ◌≤◌, ◌<◌, ◌≡◌, refl, sym, ap, ap₂, ◌∙◌, subst,
  fun_ext, ◌≢◌, ◌⊎◌, inl, inr, ◌↔◌, Bool, true, false, ◌&&◌, ◌||◌, not, Option, none, some, List,
  [], ◌∷◌, ◌++◌, map, arith, ltb, leb, ◌==◌, if◌then◌else◌, ltb→lt, lt→ltb, ==_iff, tests,
  Bool-cases, Option-cases, update, length, get_elem?, set, take, drop, replicate, length-append,
  length-set, length-replicate, length-take, length-drop, get_elem?-set_self, get_elem?-set_ne,
  lt_of_get_elem?, take-append, drop-append, take-append-drop, get_elem?-of_lt, ℤ, pos, negsuc,
  pos_part, neg_part, sub_ℕ, ◌≤ℤ◌, ◌<ℤ◌, ltb_ℤ, eqb_ℤ, leb_ℤ, wrap_int, ◌+ℤ◌, ◌-ℤ◌, IsInt, +ℤ_parts,
  -ℤ_parts, +ℤ-IsInt, -ℤ-IsInt, eq_of_parts, int_laws, first_free, Full, first_free_cases,
}

-- `for (i = 2; i < n / 2; i++) if (n % i == 0) { flag = 0; break; }` from `i` on, for the rounds
-- that are left: whether the flag is still set.
unfoldable pub flag_from : ℕ → ℕ → ℕ → Bool
flag_from zero i n = true
flag_from (suc k) i n =
    let rest = flag_from k (suc i) n in
    if ltb i (n / 2) then (if n % i == 0 then false else rest) else true

-- The flag behind the loop, which has fewer than `n` rounds.
unfoldable pub flag : ℕ → Bool
flag n = flag_from n 2 n

-- `routine_GetPrime` of prime.c: the number that the thread prints, and what it returns. `none` is
-- the pointer NULL.
unfoldable pub routine_get_prime : Option ℕ → Option ℕ × Option ℕ
routine_get_prime none = (none, none)
routine_get_prime (some n) = (if flag n then some n else none, some n)
