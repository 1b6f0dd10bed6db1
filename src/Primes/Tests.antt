-- ===== src/Primes/Tests.antt =====
-- Tests of the searches for primes, and their theorems at concrete inputs.
use lhq_linux_c.Base.{ℕ, zero, suc, ◌≤◌, ◌<◌, ◌≡◌, refl, ◌⊎◌, ◌↔◌, true, some, List, [], ◌∷◌, arith}
use lhq_linux_c.Primes
use lhq_linux_c.Primes.Divisors.{IsPrime, flag_iff}
use lhq_linux_c.Primes.HandOver
use lhq_linux_c.Primes.HandOver.{
  System, Worker, ready, asleep, exited, Main, Waiter, nobody, the_main, the_worker, Event, runs,
  main_runs, spurious, step, run, left, right,
}
use lhq_linux_c.Primes.HandOver.Order.{count}
use lhq_linux_c.Primes.HandOver.Printed.{prints_primes}
use lhq_linux_c.Primes.Spinning
use lhq_linux_c.Primes.Spinning.Stuck.{AllZero, first_number_stays}

-- The loop stops in front of n / 2, and takes 4 for a prime.
four_passes : Primes.flag 4 ≡ true
unfolding Primes.flag Primes.flag_from
four_passes = refl

flag_iff_example : (Primes.flag 209 ≡ true) ↔ IsPrime 209
flag_iff_example = flag_iff 209 (omega arith)

-- Thread 0 takes and tests every number alone.
abbrev rounds : ℕ → List Event
rounds zero =
    main_runs nobody ∷ runs 0 nobody ∷ runs 1 nobody ∷ runs 2 nobody ∷ main_runs nobody ∷ []
rounds (suc n) = main_runs nobody ∷ runs 0 nobody ∷ runs 0 nobody ∷ rounds n

abbrev primes : List ℕ
primes =
    211 ∷ 223 ∷ 227 ∷ 229 ∷ 233 ∷ 239 ∷ 241 ∷ 251 ∷ 257 ∷ 263 ∷ 269 ∷ 271 ∷ 277 ∷ 281 ∷ 283 ∷ 293
    ∷ 307 ∷ 311 ∷ 313 ∷ 317 ∷ 331 ∷ 337 ∷ 347 ∷ 349 ∷ 353 ∷ 359 ∷ 367 ∷ 373 ∷ 379 ∷ 383 ∷ 389 ∷ 397
    ∷ []

abbrev finished : System
finished = record {
  num = 399;
  flag = HandOver.over;
  main = Main.returned;
  workers = exited ∷ exited ∷ exited ∷ [];
  printed = primes;
}

whole_run : run (rounds 200) HandOver.start ≡ some finished
unfolding run step HandOver.start HandOver.worker_step HandOver.worker_at HandOver.main_step
    HandOver.give HandOver.signal HandOver.broadcast HandOver.rouse HandOver.rouse_main
    HandOver.some_sleeps HandOver.all_exited Primes.flag Primes.flag_from
whole_run = refl

prints_primes_example :
    (((left ≤ 211) × (211 < right) × IsPrime 211) × (count 211 finished.printed ≡ 1))
    ⊎ ((¬ ((left ≤ 211) × (211 < right) × IsPrime 211)) × (count 211 finished.printed ≡ 0))
prints_primes_example = prints_primes (rounds 200) finished whole_run refl 211

-- A signal for main wakes a thread, and all four sleep: no step but a wake-up without a signal is
-- left.
abbrev lost_signal : List Event
lost_signal =
    runs 0 nobody
    ∷ runs 1 nobody
    ∷ main_runs (the_worker 0)
    ∷ main_runs nobody
    ∷ runs 0 (the_worker 1)
    ∷ runs 0 nobody
    ∷ runs 0 nobody
    ∷ runs 1 nobody
    ∷ runs 2 nobody
    ∷ []

all_sleep :
    run lost_signal HandOver.start
    ≡ some (record {
      num = 200;
      flag = HandOver.taken;
      main = Main.sleeps 201;
      workers = asleep ∷ asleep ∷ asleep ∷ [];
      printed = [];
    })
unfolding run step HandOver.start HandOver.worker_step HandOver.worker_at HandOver.main_step
    HandOver.give HandOver.signal HandOver.wake HandOver.wake_main HandOver.rouse_main
    HandOver.some_sleeps Primes.flag Primes.flag_from
all_sleep = refl

abbrev one_put : Spinning.Shared
one_put = record Spinning.start { num = 200; flag = Spinning.filled; main = Spinning.waits 200 }

one_put-Reach : Spinning.Reach Spinning.start one_put
unfolding Spinning.start
one_put-Reach = Spinning.then_step Spinning.here (Spinning.puts 200 refl refl (omega arith))

first_number_stays_example :
    ((one_put.main ≡ Spinning.gives 200) ⊎ (one_put.main ≡ Spinning.waits 200))
    × AllZero one_put.printed
first_number_stays_example = first_number_stays one_put one_put-Reach
