-- ===== src/ThreadBucket/Tests.antt =====
-- Runs of the token buckets of posix/other/tbf/mytbf.c on concrete calls.
use Prim.{tt}
use lhq_linux_c.Base.{
  ◌⊎◌, suc, ℕ, ◌<◌, ◌≡◌, refl, ap, true, Option, none, some, List, [], ◌∷◌, arith, update,
  get_elem?, set, pos, negsuc,
}
use lhq_linux_c.ThreadBucket.{
  Bucket, Module, start, Call, inits, fetches, gives_back, destroys, tick, faulted, handle, number,
  ticked, waiting, run, mod_unload, mytbf_max,
}
use lhq_linux_c.ThreadBucket.Levels.{
  Level, AllOwed, none_yet, spec, spec_step, take_from, give_to, remove, put,
}
use lhq_linux_c.ThreadBucket.Sane.{IsValid, IsValid-enlist, start-IsValid}
use lhq_linux_c.ThreadBucket.Refine.{run-levels}
use lhq_linux_c.ThreadBucket.Unload.{mod_unload_lem}

abbrev calls : List Call
calls =
    inits true (some 5) (pos 10) (pos 25)
    ∷ fetches 5 (pos 4)
    ∷ tick
    ∷ fetches 5 (pos 4)
    ∷ gives_back 5 (pos 100)
    ∷ fetches 5 (pos 0)
    ∷ fetches 5 (pos 30)
    ∷ destroys 5
    ∷ fetches 5 (pos 1)
    ∷ []

calls-AllOwed : AllOwed calls none_yet
unfolding none_yet spec_step take_from give_to remove put
calls-AllOwed = (
  (refl, refl, ground arith, refl),
  (
    tt,
    (
      tt,
      (
        tt,
        (
          (λ l e.
              (let q : 6 ≡ l.level =
                  ap (λ (o : Option Level). elim o [ none ↦ 0 | some x ↦ x.level ]) e in
                omega (arith, q))),
          (tt, (tt, (tt, (tt, tt)))),
        ),
      ),
    ),
  ),
)

run-levels_example : run calls start ≡ spec calls none_yet
run-levels_example = run-levels calls calls-AllOwed

answers_of_calls :
    spec calls none_yet
    ≡ handle (some 5)
      ∷ waiting
      ∷ ticked
      ∷ number (pos 4)
      ∷ number (pos 100)
      ∷ number (negsuc 21)
      ∷ number (pos 25)
      ∷ number (pos 0)
      ∷ faulted
      ∷ []
unfolding none_yet spec_step take_from give_to remove put spec
answers_of_calls = refl

abbrev full_bucket : Bucket
full_bucket = record { csp = pos 10; burst = pos 25; token = pos 25; pos = 0 }

abbrev one_bucket : Module
one_bucket = record start {
  job = set start.job 0 (some 5);
  heap = update start.heap 5 (some full_bucket);
  handlers = 1;
}

abbrev loaded : Module
loaded = record start { handlers = 1 }

loaded-IsValid : IsValid loaded
loaded-IsValid = record {
  table = start-IsValid.table;
  sane = start-IsValid.sane;
  slots = start-IsValid.slots;
}

one_bucket-IsValid : IsValid one_bucket
one_bucket-IsValid = IsValid-enlist loaded-IsValid 0 5 full_bucket refl refl refl (record {
  csp_nonneg = refl;
  burst_nonneg = refl;
  fits = ground arith;
  nonneg = refl;
  within = ground arith;
})

mod_unload_lem_example :
    ((one_bucket.handlers ≡ 0) × (mod_unload one_bucket ≡ none))
    ⊎ ((m' : Module) × (mod_unload one_bucket ≡ some m')
        × (suc m'.handlers ≡ one_bucket.handlers)
        × ((j : ℕ) → j < mytbf_max → get_elem? m'.job j ≡ some none)
        × ((p : ℕ) → m'.heap p ≡ none))
mod_unload_lem_example = mod_unload_lem one_bucket one_bucket-IsValid

-- Without the thread.
no_thread : mod_unload start ≡ none
unfolding mod_unload
no_thread = refl
