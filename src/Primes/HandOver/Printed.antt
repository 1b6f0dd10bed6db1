-- ===== src/Primes/HandOver/Printed.antt =====
-- posix/ai.c: what the threads have printed when main returns.
use Prim.{tt}
use lhq_linux_c.Base.{
  ℕ, suc, ◌≤◌, ◌<◌, ◌≡◌, refl, ◌∙◌, subst, ◌⊎◌, inl, inr, Bool, true, false, ◌||◌, Option, none,
  some, List, [], ◌∷◌, arith, ltb, leb, if◌then◌else◌, Bool-cases,
}
use lhq_linux_c.Primes
use lhq_linux_c.Primes.Divisors.{IsPrime, flag_iff}
use lhq_linux_c.Primes.HandOver.{
  System, Flag, Main, gives, sleeps, joins, returned, left, right, Waiter, broadcast, signal,
  all_exited, give, main_step, Event, runs, main_runs, spurious, spurious_main, step, run, start,
}
use lhq_linux_c.Primes.HandOver.Order.{
  weight, busy, count, pending, total, next, ended, gone, given, IsSound, OptSound, wake-OptSound,
  wake_main-OptSound, signal-OptSound,
}
use lhq_linux_c.Primes.HandOver.Steps.{fills, stays, closes, worker_step-OptSound, busy-all_exited}

give_by :
    (i : ℕ) (who : Waiter) (s : System) (f : Flag)
    → s.flag ≡ f
    → s.main ≡ gives i
    → IsSound s
    → OptSound (elim f [
      | Flag.filled ↦ some (record s { main = sleeps i })
      | Flag.over ↦ some (record s { main = sleeps i })
      | Flag.taken ↦
          if ltb i right
          then signal who (record s { num = i; flag = Flag.filled; main = gives (suc i) })
          else some (broadcast (record s { flag = Flag.over; main = joins }))
    ])
unfolding OptSound
give_by i who s Flag.filled f m v = stays i s m v
give_by i who s Flag.over f m v = stays i s m v
give_by i who s Flag.taken f m v = elim (Bool-cases (ltb i right)) [
  | inl h ↦ rw h (
      signal-OptSound who (record s { num = i; flag = Flag.filled; main = gives (suc i) })
        (fills i s m f (ground (arith, h)) v))
  | inr h ↦ rw h (closes i s m f (ground (arith, h)) v)
]

joined :
    (b : Bool) (s : System)
    → all_exited s.workers ≡ b
    → s.main ≡ joins
    → IsSound s
    → OptSound (if b then some (record s { main = returned }) else none)
unfolding OptSound total next ended gone
joined false s e m v = tt
joined true s e m v =
    let n : next s.main ≡ right = rw m refl in
    record {
      total = λ x. rw (← n) (v.total x);
      low = omega arith;
      high = omega arith;
      closed = λ q. v.closed (rw m refl);
      quiet = λ q x. busy-all_exited x s.workers e;
    }

main_by :
    (who : Waiter) (s : System) (m : Main)
    → s.main ≡ m
    → IsSound s
    → OptSound (elim m [
      | gives i ↦ give i who s
      | sleeps i ↦ none
      | joins ↦ if all_exited s.workers then some (record s { main = returned }) else none
      | returned ↦ none
    ])
unfolding OptSound give
main_by who s (gives i) m v = give_by i who s s.flag refl m v
main_by who s (sleeps i) m v = tt
main_by who s joins m v = joined (all_exited s.workers) s refl m v
main_by who s returned m v = tt

step-OptSound : (e : Event) (s : System) → IsSound s → OptSound (step e s)
unfolding step main_step
step-OptSound (runs k who) s v = worker_step-OptSound k who s v
step-OptSound (main_runs who) s v = main_by who s s.main refl v
step-OptSound (spurious k) s v = wake-OptSound k s v
step-OptSound spurious_main s v = wake_main-OptSound s v

run_on :
    (es : List Event) (o : Option System)
    → OptSound o
    → ((s : System) → IsSound s → OptSound (run es s))
    → OptSound (elim o [ none ↦ none | some s' ↦ run es s' ])
unfolding OptSound
run_on es none h rest = tt
run_on es (some s) h rest = rest s h

run-OptSound : (es : List Event) (s : System) → IsSound s → OptSound (run es s)
unfolding run OptSound
run-OptSound [] s v = v
run-OptSound (e ∷ es) s v = run_on es (step e s) (step-OptSound e s v) (run-OptSound es)

given-left : (x : ℕ) → given x left ≡ 0
unfolding given
given-left x = ground arith

start-IsSound : IsSound start
unfolding start total next ended gone pending busy weight count
start-IsSound = record {
  total = λ x. omega (arith, given-left x);
  low = omega arith;
  high = omega arith;
  closed = λ q. absurd cc;
  quiet = λ q. absurd cc;
}

-- Each number that a sound state holds where main has returned.
all_printed :
    (s : System) → IsSound s → s.main ≡ returned → (x : ℕ) → count x s.printed ≡ given x right
unfolding total next ended gone pending
all_printed s v m x =
    let g : gone s.main ≡ true = rw m refl in
    let n : given x (next s.main) ≡ given x right = rw m refl in
    let o : s.flag ≡ Flag.over = v.closed (rw m refl) in
    let f : pending x s.flag s.num ≡ 0 = rw o refl in omega (arith, v.total x, v.quiet g x, n, f)

given-in : (x : ℕ) → left ≤ x → x < right → given x right ≡ (if Primes.flag x then 1 else 0)
unfolding given
given-in x lo hi = ground arith

given-out : (x : ℕ) → ltb x left || leb right x ≡ true → given x right ≡ 0
unfolding given
given-out x h = ground arith

-- In every run in which main returns, the threads have printed each prime of the range exactly once
-- and nothing else, whatever the scheduler does and whomever the signals wake.
pub prints_primes :
    (es : List Event) (s : System)
    → run es start ≡ some s
    → s.main ≡ returned
    → (x : ℕ)
    → (((left ≤ x) × (x < right) × IsPrime x) × (count x s.printed ≡ 1))
      ⊎ ((¬ ((left ≤ x) × (x < right) × IsPrime x)) × (count x s.printed ≡ 0))
unfolding OptSound
prints_primes es s e m x =
    let sound : IsSound s = subst OptSound e (run-OptSound es start start-IsSound) in
    let c : count x s.printed ≡ given x right = all_printed s sound m x in
    elim (Bool-cases (ltb x left || leb right x)) [
      | inl out ↦ inr (λ h. ground (arith, out, h.0, h.1), c ∙ given-out x out)
      | inr within ↦
          let lo : left ≤ x = ground (arith, within) in
          let hi : x < right = ground (arith, within) in
          elim (Bool-cases (Primes.flag x)) [
            | inl f ↦
                inl ((lo, hi, (flag_iff x (omega arith)).0 f), c ∙ given-in x lo hi ∙ (rw f refl))
            | inr f ↦ inr (
              λ h. let t : Primes.flag x ≡ true = (flag_iff x (omega arith)).1 (h.2) in cc,
              c ∙ given-in x lo hi ∙ (rw f refl),
            )
          ]
    ]
