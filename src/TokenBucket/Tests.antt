-- ===== src/TokenBucket/Tests.antt =====
-- Tests of mytbf.c, and its theorems at concrete inputs.
use lhq_linux_c.Base.{
  ℕ, ◌+◌, ◌*◌, ◌≤◌, ◌<◌, ◌≡◌, refl, subst, ◌⊎◌, inl, inr, ◌↔◌, true, false, none, some, List, [],
  ◌∷◌, arith, ◌==◌, Bool-cases, update, get_elem?, set, replicate, pos, pos_part, ◌-ℤ◌, ltb, ◌-◌,
  if◌then◌else◌,
}
use lhq_linux_c.Table.Loops.{over}
use lhq_linux_c.TokenBucket.{
  mytbf_max, Bucket, Module, start, min, refill, alrm_handle, InitCalls, exits, handle, mytbf_init,
  fault, took, mytbf_fetchtoken, mytbf_returntoken, mytbf_destroy, mytbf_checktoken, module_unload,
}
use lhq_linux_c.TokenBucket.Invariant.{
  IsRate, IsSane, IsValid, refill_lem, start-IsValid, alrm_handle_lem,
}
use lhq_linux_c.TokenBucket.Init.{
  answers, Made, mytbf_init_lem, mytbf_init-tickers, mytbf_init_exits, Ends,
}
use lhq_linux_c.TokenBucket.Fetch.{Fetched, mytbf_fetchtoken_lem}
use lhq_linux_c.TokenBucket.Calls.{
  topped_up, mytbf_returntoken_lem, mytbf_destroy_lem, use_after_destroy,
}
use lhq_linux_c.TokenBucket.Rate.{Call, tick, fetch, give, run, rate_limit, tick_ends_wait}
use lhq_linux_c.Table.Invariant.{IsTable-enlist, IsTable-empty}
use lhq_linux_c.TokenBucket.Shutdown.{module_unload_lem}

-- A bucket for 3 tokens a second, at most 5, with 2 in it, in the first slot of the table.
abbrev pub two_left : Bucket
two_left = record { cps = pos 3; burst = pos 5; token = pos 2; pos = 0 }

abbrev pub one_bucket : Module
one_bucket = record {
  job = set (replicate mytbf_max none) 0 (some 7);
  heap = update (λ p. none) 7 (some two_left);
  once_done = true;
  tickers = 2;
  unloads = 2;
}

slow-IsRate : IsRate (pos 3) (pos 5)
slow-IsRate = record { cps_nonneg = refl; burst_nonneg = refl; fits = omega arith }

pub first_bucket :
    (m : Module) × (mytbf_init (answers 7) (pos 3) (pos 5) start ≡ handle 7 m) × IsValid m
first_bucket = elim (mytbf_init_lem start 7 (pos 3) (pos 5) start-IsValid refl slow-IsRate) [
  | inl (i, m, e, v, _, _, _, _) ↦ (m, e, v)
  | inr (e, full) ↦ absurd (full)
]

two_left-IsSane : IsSane two_left
two_left-IsSane = record { rate = slow-IsRate; nonneg = refl; within = omega arith }

abbrev no_thread : InitCalls
no_thread = record { create_direct = false; create_once = false; malloc = none }

pub one_bucket-IsValid : IsValid one_bucket
one_bucket-IsValid = record {
  table =
      IsTable-enlist (IsTable-empty (λ (b : Bucket). b.pos) mytbf_max) 0 7 two_left refl refl refl;
  sane = λ q c f. elim (Bool-cases (7 == q)) [
    | inl same ↦ subst IsSane (ground arith) two_left-IsSane
    | inr other ↦ absurd (ground arith)
  ];
}

fetch_takes_all :
    mytbf_fetchtoken 7 (pos 4) one_bucket
    ≡ took (pos 2) (record one_bucket {
      heap = update one_bucket.heap 7 (some (record two_left { token = pos 0 }));
    })
unfolding mytbf_fetchtoken min ◌-ℤ◌
fetch_takes_all = refl

alrm_handle_test :
    (m' : Module) × (alrm_handle one_bucket ≡ some m')
    × IsValid m'
    × ((p : ℕ) → m'.heap p ≡ over refill (one_bucket.heap p))
alrm_handle_test = alrm_handle_lem one_bucket one_bucket-IsValid

refill_example :
    IsSane (refill two_left)
    × ((pos_part (refill two_left).token ≡ 5) ⊎ (((refill two_left).token ≡ pos 5) × (5 < 5)))
refill_example = refill_lem two_left two_left-IsSane

mytbf_init_example : Made one_bucket 9 (pos 3) (pos 5)
mytbf_init_example = mytbf_init_lem one_bucket 9 (pos 3) (pos 5) one_bucket-IsValid refl slow-IsRate

mytbf_init_exits_test : (mytbf_init no_thread (pos 3) (pos 5) start ≡ exits) ↔ Ends start no_thread
mytbf_init_exits_test = mytbf_init_exits start no_thread (pos 3) (pos 5)

mytbf_init-tickers_test :
    let m = first_bucket.0 in
    ◌≡◌ {A = ℕ} 7 7 × (m.once_done ≡ true) × (m.tickers ≡ 2) × (m.unloads ≡ 2)
mytbf_init-tickers_test = mytbf_init-tickers start 7 7 (pos 3) (pos 5) first_bucket.1

mytbf_fetchtoken_test : Fetched one_bucket 7 4 two_left
mytbf_fetchtoken_test =
    mytbf_fetchtoken_lem one_bucket 7 4 two_left one_bucket-IsValid (omega arith) refl

mytbf_returntoken_test :
    (m' : Module) × (mytbf_returntoken 7 (pos 9) one_bucket ≡ some (pos 0, m'))
    × IsValid m'
    × (m'.job ≡ one_bucket.job)
    × (m'.heap ≡ update one_bucket.heap 7 (some (topped_up two_left 9)))
mytbf_returntoken_test =
    mytbf_returntoken_lem one_bucket 7 9 two_left one_bucket-IsValid (omega arith) refl

mytbf_destroy_test :
    (m' : Module) × (mytbf_destroy 7 one_bucket ≡ some (pos 0, m'))
    × IsValid m'
    × (m'.job ≡ set one_bucket.job 0 none)
    × (get_elem? m'.job 0 ≡ some none)
    × (m'.heap ≡ update one_bucket.heap 7 none)
mytbf_destroy_test = mytbf_destroy_lem one_bucket 7 two_left one_bucket-IsValid refl

abbrev destroyed : Module
destroyed = record one_bucket {
  job = set one_bucket.job 0 none;
  heap = update one_bucket.heap 7 none;
}

use_after_destroy_test :
    (mytbf_fetchtoken 7 (pos 1) destroyed ≡ fault)
    × (mytbf_returntoken 7 (pos 1) destroyed ≡ none)
    × (mytbf_checktoken 7 destroyed ≡ none)
    × (mytbf_destroy 7 destroyed ≡ none)
unfolding mytbf_destroy
use_after_destroy_test = use_after_destroy one_bucket destroyed 7 (pos 0) (pos 1) refl

abbrev script : List Call
script = fetch 7 4 ∷ fetch 7 1 ∷ tick ∷ fetch 7 2 ∷ give 7 1 ∷ []

rate_limit_example :
    (k : ℕ) × (m' : Module) × (b' : Bucket) × (run 7 script one_bucket ≡ some (k, m'))
    × IsValid m'
    × (m'.heap 7 ≡ some b')
    × (k + pos_part b'.token ≤ 2 + 1 * 3 + 1)
rate_limit_example = rate_limit 7 script one_bucket two_left one_bucket-IsValid refl (
  ((two_left, refl), omega arith),
  (
    ((two_left, refl), omega arith),
    (tt, (((two_left, refl), omega arith), ((two_left, refl, omega arith), tt))),
  ),
)

tick_ends_wait_example :
    (n : ℕ) × (m1 m2 : Module) × (alrm_handle one_bucket ≡ some m1)
    × (mytbf_fetchtoken 7 (pos 4) m1 ≡ took (pos n) m2)
    × (0 < pos_part (refill two_left).token)
    × (n ≡ (
        if ltb (pos_part (refill two_left).token) 4 then pos_part (refill two_left).token else 4))
    × (0 < n)
    × (m2.heap 7
        ≡ some (record (refill two_left) { token = pos (pos_part (refill two_left).token - n) }))
tick_ends_wait_example =
    tick_ends_wait one_bucket 7 4 two_left one_bucket-IsValid refl (omega arith) (omega arith)
      (omega arith) (omega arith)

module_unload_example : module_unload one_bucket ≡ some (record one_bucket { heap = λ p. none })
module_unload_example = module_unload_lem one_bucket one_bucket-IsValid
