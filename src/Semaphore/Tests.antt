-- ===== src/Semaphore/Tests.antt =====
-- Tests of the semaphore, and its theorem at a concrete input.
use lhq_linux_c.Base.{ℕ, ◌+◌, ◌≡◌, refl, ◌⊎◌, none, some, List, [], ◌∷◌, arith, pos}
use lhq_linux_c.Semaphore.{Op, ret, sub, run, sem_sub}
use lhq_linux_c.Semaphore.Balance.{put, taken, balance}

abbrev calls : List Op
calls = sub 2 ∷ ret 4 ∷ sub 3 ∷ []

waits_for_two : run (sub 2 ∷ []) (record { srcval = pos 1 }) ≡ none
unfolding run sem_sub
waits_for_two = refl

balance_example :
    (run calls (record { srcval = pos 2 }) ≡ none)
    ⊎ ((w : ℕ) × (run calls (record { srcval = pos 2 }) ≡ some (record { srcval = pos w }))
        × (w + taken calls ≡ 2 + put calls))
balance_example = balance calls 2 (omega arith)
