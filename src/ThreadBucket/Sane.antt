-- ===== src/ThreadBucket/Sane.antt =====
-- posix/other/tbf/mytbf.c: what holds of each bucket and of the table, and what writes keep of it.
use lhq_linux_c.Base.{
  ℕ, ◌+◌, ◌^◌, ◌≤◌, ◌<◌, ◌≡◌, refl, sym, ap, ◌∙◌, subst, fun_ext, inl, inr, Option, none, some,
  arith, ltb, ◌==◌, Bool-cases, Option-cases, update, length, get_elem?, set, length-set,
  length-replicate, ℤ, pos, pos_part, neg_part, ◌+ℤ◌, +ℤ-pos,
}
use lhq_linux_c.Table.Loops.{over}
use lhq_linux_c.Table.Invariant.{
  IsTable, IsTable-empty, IsTable-each, IsTable-write, IsTable-enlist, IsTable-remove,
}
use lhq_linux_c.ThreadBucket.{Bucket, Module, start, add_tokens, refill, mytbf_max}
use lhq_linux_c.ThreadBucket.Levels.{Level, raised, refilled}

pub record IsSane (b : Bucket) : Type 0 where
  pub csp_nonneg : neg_part b.csp ≡ 0
  pub burst_nonneg : neg_part b.burst ≡ 0
  pub fits : pos_part b.csp + pos_part b.burst < 2 ^ 31
  pub nonneg : neg_part b.token ≡ 0
  pub within : pos_part b.token ≤ pos_part b.burst

pub record IsValid (m : Module) : Type 0 where
  pub table : IsTable (λ (b : Bucket). b.pos) m.job m.heap
  pub sane : (p : ℕ) (b : Bucket) → m.heap p ≡ some b → IsSane b
  pub slots : length m.job ≡ mytbf_max

abbrev pub level_of : Bucket → Level
level_of b = record { rate = pos_part b.csp; burst = pos_part b.burst; level = pos_part b.token }

abbrev pub view : Option Bucket → Option Level
view none = none
view (some b) = some (level_of b)

pub view-update :
    (h : ℕ → Option Bucket) (p : ℕ) (o : Option Bucket)
    → (λ q. view (update h p o q)) ≡ update (λ q. view (h q)) p (view o)
view-update h p o = fun_ext λ q. ground arith

-- What adding tokens comes to.
pub record IsRaised (k : ℕ) (b b' : Bucket) : Type 0 where
  pub sane : IsSane b'
  pub slot : b'.pos ≡ b.pos
  pub levels : level_of b' ≡ raised k (level_of b)

pub add_tokens-IsRaised :
    (b : Bucket) (k : ℕ)
    → IsSane b
    → k + pos_part b.token < 2 ^ 31
    → IsRaised k b (add_tokens (pos k) b)
unfolding add_tokens
add_tokens-IsRaised b k s h =
    let q : b.token ≡ pos (pos_part b.token) = ground (arith, s) in
    let u : b.burst ≡ pos (pos_part b.burst) = ground (arith, s) in
    let sum : b.token +ℤ pos k ≡ pos (pos_part b.token + k) =
      ap (λ (z : ℤ). z +ℤ pos k) q ∙ +ℤ-pos (pos_part b.token) k (omega (arith, h)) in
    elim (Bool-cases (ltb (pos_part b.burst) (pos_part b.token + k))) [
      | inl over ↦
          let e : add_tokens (pos k) b ≡ record b { token = b.burst } = ground (arith, sum, u) in
          rw e (record {
            sane = record {
              csp_nonneg = s.csp_nonneg;
              burst_nonneg = s.burst_nonneg;
              fits = s.fits;
              nonneg = s.burst_nonneg;
              within = omega arith;
            };
            slot = refl;
            levels = rw over refl;
          })
      | inr under ↦
          let e : add_tokens (pos k) b ≡ record b { token = pos (pos_part b.token + k) } =
            ground (arith, sum, u) in
          rw e (record {
            sane = record {
              csp_nonneg = s.csp_nonneg;
              burst_nonneg = s.burst_nonneg;
              fits = s.fits;
              nonneg = refl;
              within = ground (arith, under);
            };
            slot = refl;
            levels = rw under refl;
          })
    ]

pub refill-IsRaised : (b : Bucket) → IsSane b → IsRaised (pos_part b.csp) b (refill b)
unfolding refill
refill-IsRaised b s =
    let c : b.csp ≡ pos (pos_part b.csp) = ground (arith, s) in
    subst (λ z. IsRaised (pos_part b.csp) b (add_tokens z b)) (sym c)
      (add_tokens-IsRaised b (pos_part b.csp) s (omega (arith, s.fits, s.within)))

refill-pos : (b : Bucket) → (refill b).pos ≡ b.pos
unfolding refill add_tokens
refill-pos b = ground arith

pub start-IsValid : IsValid start
start-IsValid = record {
  table = IsTable-empty (λ b. b.pos) mytbf_max;
  sane = λ p b e. absurd (cc e);
  slots = length-replicate {A = Option ℕ} mytbf_max none;
}

module _ {m : Module} (v : IsValid m) where
  pub IsValid-write :
      (p : ℕ) (b b' : Bucket)
      → m.heap p ≡ some b
      → b'.pos ≡ b.pos
      → IsSane b'
      → IsValid (record m { heap = update m.heap p (some b') })
  IsValid-write p b b' e keep s = record {
    table = IsTable-write v.table p b b' e keep;
    sane = λ q c f. elim (Bool-cases (p == q)) [
      | inl same ↦ subst IsSane (ground arith) s
      | inr other ↦ v.sane q c (ground arith)
    ];
    slots = v.slots;
  }

  pub IsValid-remove :
      (p : ℕ) (b : Bucket)
      → m.heap p ≡ some b
      → IsValid (record m { job = set m.job b.pos none; heap = update m.heap p none })
  IsValid-remove p b e = record {
    table = IsTable-remove v.table p b e;
    sane = λ q c f. v.sane q c (ground arith);
    slots = length-set m.job b.pos none ∙ v.slots;
  }

  pub IsValid-enlist :
      (i p : ℕ) (b : Bucket)
      → get_elem? m.job i ≡ some none
      → m.heap p ≡ none
      → b.pos ≡ i
      → IsSane b
      → IsValid (record m { job = set m.job i (some p); heap = update m.heap p (some b) })
  IsValid-enlist i p b free fresh at s = record {
    table = IsTable-enlist v.table i p b free fresh at;
    sane = λ q c f. elim (Bool-cases (p == q)) [
      | inl same ↦ subst IsSane (ground arith) s
      | inr other ↦ v.sane q c (ground arith)
    ];
    slots = length-set m.job i (some p) ∙ v.slots;
  }

  pub IsValid-each : IsValid (record m { heap = λ p. over refill (m.heap p) })
  IsValid-each = record {
    table = IsTable-each v.table refill refill-pos;
    sane = λ p b e. elim (Option-cases (m.heap p)) [
      | inl n ↦ absurd (ground (arith, n))
      | inr (c, f) ↦ subst IsSane (ground (arith, f)) (refill-IsRaised c (v.sane p c f)).sane
    ];
    slots = v.slots;
  }

  pub refilled-each :
      ◌≡◌ {A = ℕ → Option Level}
        (λ p. view (over refill (m.heap p)))
        (λ p. refilled (view (m.heap p)))
  refilled-each = fun_ext λ p. elim (Option-cases (m.heap p)) [
    | inl n ↦ rw n refl
    | inr (b, e) ↦ rw e (ap some (refill-IsRaised b (v.sane p b e)).levels)
  ]
