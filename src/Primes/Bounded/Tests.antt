-- ===== src/Primes/Bounded/Tests.antt =====
-- A run of posix/semaphore/main.c: four threads, a fifth that has to wait, and one that returns what it took and has not ended.
use lhq_linux_c.Base.{suc, ◌≤◌, ◌≡◌, refl, ◌⊎◌, true, List, [], ◌∷◌, pos, ◌+ℤ◌, ◌-ℤ◌}
use lhq_linux_c.Semaphore.{sem_sub, sem_ret}
use lhq_linux_c.Primes.{flag, flag_from}
use lhq_linux_c.Primes.Bounded.{
  right, thrdnum, Search, Event, creates, prints, gives_back, print_thread, return_thread, without,
  goes, create, step, run, start,
}
use lhq_linux_c.Primes.Bounded.Few.{run-few, taken_by}

abbrev events : List Event
events =
    creates true
    ∷ creates true
    ∷ creates true
    ∷ creates true
    ∷ creates true
    ∷ prints 1
    ∷ gives_back 0
    ∷ creates true
    ∷ []

abbrev after : Search
after = record {
  sem = record { srcval = pos 0 };
  next = 1015;
  testing = 1010 ∷ 1012 ∷ 1013 ∷ 1014 ∷ [];
  holding = [];
  leaving = 1011 ∷ [];
  printed = [];
}

-- Five threads run at the same time here.
reaches_after : run events start ≡ goes after
unfolding run step create print_thread return_thread without start sem_sub sem_ret flag flag_from
    ◌+ℤ◌ ◌-ℤ◌
reaches_after = refl

run-few_example :
    (taken_by after ≤ thrdnum)
    × ((thrdnum ≤ taken_by after)
        ⊎ (right ≤ after.next)
        ⊎ ((s' : Search) × (step (creates true) after ≡ goes s') × (s'.next ≡ suc after.next)))
run-few_example = run-few events after reaches_after
