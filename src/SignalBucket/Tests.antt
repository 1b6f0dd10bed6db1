-- ===== src/SignalBucket/Tests.antt =====
-- Tests of the token buckets of one thread, and their theorem at a concrete input.
use lhq_linux_c.Base.{
  ℕ, ◌-◌, ◌≤◌, ◌≡◌, refl, ◌⊎◌, true, none, some, ◌∷◌, arith, ◌==◌, if◌then◌else◌, update, replicate,
  pos, first_free,
}
use lhq_linux_c.SignalBucket.{Bucket, Module, find_vacant_pos, waits, gives, mytb_fetchtoken}
use lhq_linux_c.SignalBucket.Fetch.{mytb_fetchtoken_lem}

abbrev bucket : Bucket
bucket = record { cps = pos 10; burst = pos 100; token = pos 60; pos = 0 }

abbrev one_bucket : Module
one_bucket = record {
  job = some 7 ∷ replicate 1023 none;
  heap = λ p. if p == 7 then some bucket else none;
  initflag = true;
}

second_slot : find_vacant_pos one_bucket.job ≡ pos 1
unfolding find_vacant_pos first_free
second_slot = refl

abbrev content : ℕ
content = 60

abbrev asked : ℕ
asked = 80

mytb_fetchtoken_test :
    ((content ≡ 0) × (mytb_fetchtoken 7 (pos asked) one_bucket ≡ waits))
    ⊎ ((k : ℕ) × (mytb_fetchtoken 7 (pos asked) one_bucket
          ≡ gives (pos k) (record one_bucket {
            heap = update one_bucket.heap 7 (some (record bucket { token = pos (content - k) }));
          }))
        × (k ≤ content)
        × (k ≤ asked)
        × ((k ≡ asked) ⊎ (k ≡ content)))
mytb_fetchtoken_test = mytb_fetchtoken_lem 7 content asked bucket one_bucket refl refl (omega arith)
