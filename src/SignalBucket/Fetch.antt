-- ===== src/SignalBucket/Fetch.antt =====
-- signal/tokenBucket.c: what Mytb_Fetchtoken gives.
use lhq_linux_c.Base.{
  -ℤ-pos, ℕ, ◌-◌, ◌^◌, ◌≤◌, ◌<◌, ◌≡◌, refl, ◌⊎◌, inl, inr, true, false, some, arith, ltb, ◌==◌,
  if◌then◌else◌, Bool-cases, update, pos, ltb_ℤ, leb_ℤ,
}
use lhq_linux_c.SignalBucket.{Bucket, Module, waits, gives, mytb_fetchtoken}

gives_part :
    (p t n k : ℕ) (b : Bucket) (m : Module)
    → m.heap p ≡ some b
    → b.token ≡ pos t
    → 0 < t
    → t < 2 ^ 31
    → (if ltb_ℤ (pos t) (pos n) then pos t else pos n) ≡ pos k
    → k ≤ t
    → mytb_fetchtoken p (pos n) m
      ≡ gives
          (pos k)
          (record m { heap = update m.heap p (some (record b { token = pos (t - k) })) })
unfolding mytb_fetchtoken
gives_part p t n k b m e et more small q h =
    let u : ltb_ℤ (pos n) (pos 0) ≡ false = ground arith in
    let l : leb_ℤ (pos t) (pos 0) ≡ false = ground arith in
    rw (mytb_fetchtoken, u, e, et, l, q, -ℤ-pos t k h small) refl

-- A fetch of a number that is at least 0 from a live bucket, with a content in the range of int
-- that is at least 0: it waits where the bucket is empty; otherwise it gives the number, or all
-- that is there where that is less, takes it from the bucket, and changes nothing else.
pub mytb_fetchtoken_lem :
    (p t n : ℕ) (b : Bucket) (m : Module)
    → m.heap p ≡ some b
    → b.token ≡ pos t
    → t < 2 ^ 31
    → ((t ≡ 0) × (mytb_fetchtoken p (pos n) m ≡ waits))
      ⊎ ((k : ℕ) × (mytb_fetchtoken p (pos n) m
            ≡ gives
                (pos k)
                (record m { heap = update m.heap p (some (record b { token = pos (t - k) })) }))
          × (k ≤ t)
          × (k ≤ n)
          × ((k ≡ n) ⊎ (k ≡ t)))
unfolding mytb_fetchtoken
mytb_fetchtoken_lem p t n b m e et small = elim (Bool-cases (t == 0)) [
  | inl z ↦
      let u : ltb_ℤ (pos n) (pos 0) ≡ false = ground arith in
      let l : leb_ℤ (pos t) (pos 0) ≡ true = ground (arith, z) in
      inl (ground (arith, z), rw (mytb_fetchtoken, u, e, et, l) refl)
  | inr z ↦ elim (Bool-cases (ltb t n)) [
    | inl less ↦ inr (
      t,
      gives_part p t n t b m e et (ground (arith, z)) small (ground (arith, less)) (omega arith),
      omega arith,
      ground (arith, less),
      inr refl,
    )
    | inr enough ↦ inr (
      n,
      gives_part p t n n b m e et (ground (arith, z)) small (ground (arith, enough))
          (ground (arith, enough)),
      ground (arith, enough),
      omega arith,
      inl refl,
    )
  ]
]
