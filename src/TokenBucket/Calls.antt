-- ===== src/TokenBucket/Calls.antt =====
-- `mytbf_returntoken` and `mytbf_destroy` of mytbf.c, and a pointer after its bucket is destroyed.
use lhq_linux_c.Base.{
  +ℤ-pos, ℕ, ◌+◌, ◌^◌, ◌<◌, ◌≡◌, refl, ap, ◌∙◌, Option, none, some, arith, ltb, if◌then◌else◌,
  update, get_elem?, set, get_elem?-set_self, lt_of_get_elem?, ℤ, pos, pos_part, ◌+ℤ◌,
}
use lhq_linux_c.Table.Invariant.{IsTable-remove}
use lhq_linux_c.TokenBucket.{
  Bucket, Module, fault, mytbf_fetchtoken, give_back, mytbf_returntoken, mytbf_destroy,
  mytbf_checktoken,
}
use lhq_linux_c.TokenBucket.Invariant.{IsSane, IsValid, IsValid-write}
use lhq_linux_c.TokenBucket.Fetch.{token-eq}

-- The tokens of a bucket after `size` of them come back: at most `burst`.
abbrev pub topped_up : Bucket → ℕ → Bucket
topped_up b size =
    let t = pos_part b.token + size in
    record b { token = pos (if ltb (pos_part b.burst) t then pos_part b.burst else t) }

give_back-pos :
    (b : Bucket) (size : ℕ)
    → IsSane b
    → size + pos_part b.token < 2 ^ 31
    → give_back b (pos size) ≡ topped_up b size
unfolding give_back
give_back-pos b size s h =
    let q = token-eq b s in
    let sum : b.token +ℤ pos size ≡ pos (pos_part b.token + size) =
      ap (λ (z : ℤ). z +ℤ pos size) q ∙ +ℤ-pos (pos_part b.token) size (ground (arith, s)) in
    ground (arith, s, sum)

topped_up-IsSane : (b : Bucket) (size : ℕ) → IsSane b → IsSane (topped_up b size)
topped_up-IsSane b size s = record { rate = s.rate; nonneg = refl; within = ground (arith) }

-- What is returned is kept up to `burst`, and no other bucket changes.
pub mytbf_returntoken_lem :
    (m : Module) (p size : ℕ) (b : Bucket)
    → IsValid m
    → size + pos_part b.token < 2 ^ 31
    → m.heap p ≡ some b
    → (m' : Module) × (mytbf_returntoken p (pos size) m ≡ some (pos 0, m'))
      × IsValid m'
      × (m'.job ≡ m.job)
      × (m'.heap ≡ update m.heap p (some (topped_up b size)))
unfolding mytbf_returntoken
mytbf_returntoken_lem m p size b v h e =
    let s = v.sane p b e in
    (
      record m { heap = update m.heap p (some (topped_up b size)) },
      rw (e, mytbf_returntoken, give_back-pos b size s h),
      IsValid-write v p e (topped_up b size) refl (topped_up-IsSane b size s),
      refl,
      refl,
    )

-- A bucket that is destroyed leaves its slot free; the other buckets stay as they are.
pub mytbf_destroy_lem :
    (m : Module) (p : ℕ) (b : Bucket)
    → IsValid m
    → m.heap p ≡ some b
    → (m' : Module) × (mytbf_destroy p m ≡ some (pos 0, m'))
      × IsValid m'
      × (m'.job ≡ set m.job b.pos none)
      × (get_elem? m'.job b.pos ≡ some none)
      × (m'.heap ≡ update m.heap p none)
unfolding mytbf_destroy
mytbf_destroy_lem m p b v e = (
  record m { job = set m.job b.pos none; heap = update m.heap p none },
  rw (e, mytbf_destroy),
  record { table = IsTable-remove v.table p b e; sane = λ q c f. v.sane q c (ground arith) },
  refl,
  get_elem?-set_self m.job b.pos none (lt_of_get_elem? m.job b.pos (some p) (v.table.live p b e)),
  refl,
)

-- After `mytbf_destroy` the pointer is dangling: every call that is given it is a fault.
pub use_after_destroy :
    (m m' : Module) (p : ℕ) (r size : ℤ)
    → mytbf_destroy p m ≡ some (r, m')
    → (mytbf_fetchtoken p size m' ≡ fault)
      × (mytbf_returntoken p size m' ≡ none)
      × (mytbf_checktoken p m' ≡ none)
      × (mytbf_destroy p m' ≡ none)
unfolding mytbf_destroy mytbf_fetchtoken mytbf_returntoken mytbf_checktoken
use_after_destroy m m' p r size h =
    let gone : m'.heap p ≡ none = freed (m.heap p) refl in
    (
      rw (gone, mytbf_fetchtoken),
      rw (gone, mytbf_returntoken),
      rw (gone, mytbf_checktoken),
      rw (gone, mytbf_destroy),
    )
  where
    freed : (o : Option Bucket) → m.heap p ≡ o → m'.heap p ≡ none
    freed none e = absurd (ground (arith, e))
    freed (some b) e = ground (arith, e)
