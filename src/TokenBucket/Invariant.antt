-- ===== src/TokenBucket/Invariant.antt =====
-- What holds of the token buckets of mytbf.c between two calls, and what each call does.
use lhq_linux_c.Base.{
  ℕ, ◌+◌, ◌^◌, ◌≤◌, ◌<◌, ◌≡◌, refl, subst, ◌⊎◌, inl, inr, some, arith, ◌==◌, Bool-cases,
  Option-cases, update, ℤ, pos_part, neg_part, +ℤ_parts,
}
use lhq_linux_c.Table.Invariant.{
  IsTable, IsTable-empty, IsTable-each, IsTable-write, each_slot-table,
}
use lhq_linux_c.Table.Loops.{over}
use lhq_linux_c.TokenBucket.{mytbf_max, Bucket, Module, start, refill, alrm_handle}

-- The rates that a caller gives are not negative, and a refill does not leave `int`.
pub record IsRate (cps burst : ℤ) : Type 0 where
  pub cps_nonneg : neg_part cps ≡ 0
  pub burst_nonneg : neg_part burst ≡ 0
  pub fits : pos_part cps + pos_part burst < 2 ^ 31

pub record IsSane (b : Bucket) : Type 0 where
  pub rate : IsRate b.cps b.burst
  pub nonneg : neg_part b.token ≡ 0
  pub within : pos_part b.token ≤ pos_part b.burst

pub record IsValid (m : Module) : Type 0 where
  pub table : IsTable (λ (b : Bucket). b.pos) m.job m.heap
  pub sane : (p : ℕ) (b : Bucket) → m.heap p ≡ some b → IsSane b

pub start-IsValid : IsValid start
start-IsValid = record {
  table = IsTable-empty (λ b. b.pos) mytbf_max;
  sane = λ p b e. absurd (cc e);
}

-- A refill keeps a bucket within its bounds, and adds `cps` up to `burst`.
pub refill_lem :
    (b : Bucket)
    → IsSane b
    → IsSane (refill b)
      × ((pos_part (refill b).token ≡ pos_part b.token + pos_part b.cps)
          ⊎ (((refill b).token ≡ b.burst) × (pos_part b.burst < pos_part b.token + pos_part b.cps)))
unfolding refill
refill_lem b s = ground (arith, +ℤ_parts b.token b.cps)

refill-pos : (b : Bucket) → (refill b).pos ≡ b.pos
unfolding refill
refill-pos b = ground arith

pub refill-rate : (b : Bucket) → ((refill b).cps ≡ b.cps) × ((refill b).burst ≡ b.burst)
unfolding refill
refill-rate b = (ground arith, ground arith)

-- The handler of SIGALRM reaches every bucket once, through no dangling pointer.
pub alrm_handle_lem :
    (m : Module)
    → IsValid m
    → (m' : Module) × (alrm_handle m ≡ some m')
      × IsValid m'
      × ((p : ℕ) → m'.heap p ≡ over refill (m.heap p))
unfolding alrm_handle
alrm_handle_lem m v = (
  record m { heap = λ p. over refill (m.heap p) },
  rw (each_slot-table v.table refill, alrm_handle),
  valid,
  λ p. refl,
)
  where
    valid : IsValid (record m { heap = λ p. over refill (m.heap p) })
    valid = record {
      table = IsTable-each v.table refill refill-pos;
      sane = λ p b e. elim (Option-cases (m.heap p)) [
        | inl n ↦ absurd (ground (arith, n))
        | inr (c, f) ↦ subst IsSane (ground (arith, f)) (refill_lem c (v.sane p c f)).0
      ];
    }

module _ {m : Module} (v : IsValid m) (p : ℕ) {b : Bucket} (e : m.heap p ≡ some b) where
  pub IsValid-write :
      (b' : Bucket)
      → b'.pos ≡ b.pos
      → IsSane b'
      → IsValid (record m { heap = update m.heap p (some b') })
  IsValid-write b' keep s = record {
    table = IsTable-write v.table p b b' e keep;
    sane = λ q c f. elim (Bool-cases (p == q)) [
      | inl same ↦ subst IsSane (ground arith) s
      | inr other ↦ v.sane q c (ground arith)
    ];
  }
