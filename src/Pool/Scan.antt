-- ===== src/Pool/Scan.antt =====
-- socket/processPool: what scan_pool counts.
use lhq_linux_c.Base.{
  ℕ, suc, ◌+◌, ◌≡◌, refl, sym, ap, ◌∙◌, subst, inl, inr, Bool, true, false, ◌&&◌, not, Option, none,
  some, List, [], ◌∷◌, arith, ◌==◌, Bool-cases, length, ℤ, negsuc,
}
use Prim.{Unit, tt}
use lhq_linux_c.Pool.{
  Task, Pool, used, Pool, scan_slot, scan_from, scan_pool, max_working, state_idle, state_busy,
}
use lhq_linux_c.Pool.Slots.{count, is_idle, is_busy, IsCounted}

-- A used slot whose process is gone.
abbrev pub is_dead : (ℤ → Bool) → Task → Bool
is_dead alive t = used t && not (alive t.pid)

-- The slots behind a scan: only living processes, and their counts.
pub record IsScanned (alive : ℤ → Bool) (ts ts' : List Task) (i b : ℕ) : Type 0 where
  pub size : length ts' ≡ length ts
  pub idle : count is_idle ts' ≡ i
  pub busy : count is_busy ts' ≡ b
  pub total : i + b ≡ count used ts'
  pub living : count (is_dead alive) ts' ≡ 0

ScanOk : (ℤ → Bool) → List Task → Option (List Task × ℕ × ℕ) → Type 0
ScanOk alive ts none = Unit
ScanOk alive ts (some (ts', i, b)) = IsScanned alive ts ts' i b

free-IsScanned :
    (alive : ℤ → Bool) (t t' : Task) (ts ts' : List Task) (i b : ℕ)
    → IsScanned alive ts ts' i b
    → used t' ≡ false
    → IsScanned alive (t ∷ ts) (t' ∷ ts') i b
unfolding count
free-IsScanned alive t t' ts ts' i b s e = record {
  size = ap (λ n. suc n) s.size;
  idle = rw e s.idle;
  busy = rw e s.busy;
  total = rw e s.total;
  living = rw e s.living;
}

idle-IsScanned :
    (alive : ℤ → Bool) (t : Task) (ts ts' : List Task) (i b : ℕ)
    → IsScanned alive ts ts' i b
    → used t ≡ true
    → alive t.pid ≡ true
    → (t.state == state_idle) ≡ true
    → IsScanned alive (t ∷ ts) (t ∷ ts') (suc i) b
unfolding count
idle-IsScanned alive t ts ts' i b s u a z =
    let o : (t.state == state_busy) ≡ false = ground (arith, z) in
    record {
      size = ap (λ n. suc n) s.size;
      idle = rw (u, z) (ap (λ n. suc n) s.idle);
      busy = rw (u, o) s.busy;
      total = rw u (omega (arith, s.total));
      living = rw (u, a) s.living;
    }

busy-IsScanned :
    (alive : ℤ → Bool) (t : Task) (ts ts' : List Task) (i b : ℕ)
    → IsScanned alive ts ts' i b
    → used t ≡ true
    → alive t.pid ≡ true
    → (t.state == state_idle) ≡ false
    → (t.state == state_busy) ≡ true
    → IsScanned alive (t ∷ ts) (t ∷ ts') i (suc b)
unfolding count
busy-IsScanned alive t ts ts' i b s u a z o = record {
  size = ap (λ n. suc n) s.size;
  idle = rw (u, z) s.idle;
  busy = rw (u, o) (ap (λ n. suc n) s.busy);
  total = rw u (omega (arith, s.total));
  living = rw (u, a) s.living;
}

scan_slot_lem :
    (alive : ℤ → Bool) (t : Task) (ts ts' : List Task) (i b : ℕ)
    → IsScanned alive ts ts' i b
    → ScanOk alive (t ∷ ts) (scan_slot alive t ts' i b)
unfolding scan_slot ScanOk
scan_slot_lem alive t ts ts' i b s = elim (Bool-cases (used t)) [
  | inr u ↦ rw u (free-IsScanned alive t t ts ts' i b s u)
  | inl u ↦ elim (Bool-cases (alive t.pid)) [
    | inr a ↦ rw (u, a) (free-IsScanned alive t (record t { pid = negsuc 0 }) ts ts' i b s refl)
    | inl a ↦ elim (Bool-cases (t.state == state_idle)) [
      | inl z ↦ rw (u, a, z) (idle-IsScanned alive t ts ts' i b s u a z)
      | inr z ↦ elim (Bool-cases (t.state == state_busy)) [
        | inl o ↦ rw (u, a, z, o) (busy-IsScanned alive t ts ts' i b s u a z o)
        | inr o ↦ rw (u, a, z, o) tt
      ]
    ]
  ]
]

scan_next :
    (alive : ℤ → Bool) (t : Task) (ts : List Task) (r : Option (List Task × ℕ × ℕ))
    → ScanOk alive ts r
    → ScanOk alive (t ∷ ts) (elim r [ none ↦ none | some (ts', i, b) ↦ scan_slot alive t ts' i b ])
unfolding ScanOk
scan_next alive t ts none s = tt
scan_next alive t ts (some (ts', i, b)) s = scan_slot_lem alive t ts ts' i b s

scan_from_lem : (alive : ℤ → Bool) (ts : List Task) → ScanOk alive ts (scan_from alive ts)
unfolding scan_from ScanOk count
scan_from_lem alive [] = record {
  size = refl;
  idle = refl;
  busy = refl;
  total = refl;
  living = refl;
}
scan_from_lem alive (t ∷ ts) = scan_next alive t ts (scan_from alive ts) (scan_from_lem alive ts)

scanned :
    (alive : ℤ → Bool) (p p' : Pool) (r : Option (List Task × ℕ × ℕ))
    → length p.tasks ≡ max_working
    → ScanOk alive p.tasks r
    → elim r [ none ↦ none | some (ts, i, b) ↦ some (record { tasks = ts; idle = i; busy = b }) ]
      ≡ some p'
    → IsCounted p'
      × (p'.idle ≡ count is_idle p'.tasks)
      × (p'.busy ≡ count is_busy p'.tasks)
      × (count (is_dead alive) p'.tasks ≡ 0)
unfolding ScanOk
scanned alive p p' none l s e = absurd cc
scanned alive p p' (some (ts, i, b)) l s e =
    let q : Pool = record { tasks = ts; idle = i; busy = b } in
    let h : q ≡ p' = cc in
    subst
      (λ x.
        IsCounted x
        × (x.idle ≡ count is_idle x.tasks)
        × (x.busy ≡ count is_busy x.tasks)
        × (count (is_dead alive) x.tasks ≡ 0))
      h (record { size = s.size ∙ l; total = s.total }, sym s.idle, sym s.busy, s.living)

-- The pool behind scan_pool has no used slot without a process, and its counters are the numbers of
-- its idle and of its busy tasks, which are all its used slots.
pub scan_pool_lem :
    (alive : ℤ → Bool) (p p' : Pool)
    → length p.tasks ≡ max_working
    → scan_pool alive p ≡ some p'
    → IsCounted p'
      × (p'.idle ≡ count is_idle p'.tasks)
      × (p'.busy ≡ count is_busy p'.tasks)
      × (count (is_dead alive) p'.tasks ≡ 0)
unfolding scan_pool
scan_pool_lem alive p p' l e =
    scanned alive p p' (scan_from alive p.tasks) l (scan_from_lem alive p.tasks) e
