-- ===== src/OldBucket/Tests.antt =====
-- Tests of the older token buckets, and their theorems at concrete inputs.
use lhq_linux_c.Base.{
  ℕ, ◌+◌, ◌≡◌, refl, ◌⊎◌, true, none, some, ◌∷◌, arith, ◌==◌, if◌then◌else◌, update, get_elem?, set,
  replicate, pos, ◌<ℤ◌, first_free, Full,
}
use lhq_linux_c.OldBucket.{
  Bucket, Module, new_bucket, find_pos_unlock, mytbf_init, InitResult, mytbf_returntoken,
}
use lhq_linux_c.OldBucket.Init.{mytbf_init_outside, returns_over_limit}

abbrev bucket : Bucket
bucket = record { cps = pos 10; pos = pos 0; token = pos 60; limit = pos 100 }

-- One bucket at address 7, in the first slot.
abbrev one_bucket : Module
one_bucket = record {
  job = some 7 ∷ replicate 1023 none;
  heap = λ p. if p == 7 then some bucket else none;
  once_done = true;
  tickers = 1;
  unloads = 1;
}

abbrev full_table : Module
full_table = record one_bucket { job = replicate 3 (some 7) }

second_slot : find_pos_unlock one_bucket ≡ pos 1
unfolding find_pos_unlock first_free
second_slot = refl

mytbf_init_outside_example :
    ((i : ℕ) × (get_elem? full_table.job i ≡ some none)
      × (mytbf_init true (some 9) (pos 10) (pos 100) full_table
          ≡ InitResult.handle 9 (record full_table {
            job = set full_table.job i (some 9);
            heap = update full_table.heap 9 (some (new_bucket (pos 10) (pos 100) (pos i)));
          })))
    ⊎ (Full full_table.job
        × (mytbf_init true (some 9) (pos 10) (pos 100) full_table ≡ InitResult.outside))
mytbf_init_outside_example = mytbf_init_outside true 9 (pos 10) (pos 100) full_table refl

returns_over_limit_test :
    (b' : Bucket) × (mytbf_returntoken 7 (pos 80) one_bucket
      ≡ some (pos 0, record one_bucket { heap = update one_bucket.heap 7 (some b') }))
    × (b'.token ≡ pos (60 + 80))
    × (b'.limit <ℤ b'.token)
returns_over_limit_test =
    returns_over_limit 7 60 80 100 bucket one_bucket refl refl refl (omega arith) (omega arith)
      (omega arith)
