-- ===== src/TokenBucket/Init.antt =====
-- `mytbf_init` of mytbf.c: a new bucket in a free slot, or the end of the process.
use lhq_linux_c.Base.{
  ℕ, suc, ◌+◌, ◌≡◌, refl, ap, ◌∙◌, subst, ◌≢◌, ◌⊎◌, inl, inr, ◌↔◌, true, false, Option, none, some,
  List, [], ◌∷◌, arith, ◌==◌, if◌then◌else◌, Bool-cases, Option-cases, update, get_elem?, set, ℤ,
  pos, negsuc, first_free, Full, first_free_cases, first_free-taken, ◌<◌,
}
use lhq_linux_c.Table.Invariant.{IsTable-enlist}
use lhq_linux_c.TokenBucket.{
  Bucket, Module, InitCalls, exits, handle, new_bucket, enlist, mytbf_init,
}
use lhq_linux_c.TokenBucket.Invariant.{IsRate, IsSane, IsValid}

-- The answers of the system with no error: both threads are created, and `malloc` gives `p`.
abbrev pub answers : ℕ → InitCalls
answers p = record { create_direct = true; create_once = true; malloc = some p }

-- The static variables after `module_load` and `pthread_once`.
abbrev pub loaded : Module → Module
loaded m =
    if m.once_done
    then record m { tickers = suc m.tickers; unloads = suc m.unloads }
    else record m { once_done = true; tickers = suc (suc m.tickers); unloads = suc (suc m.unloads) }

new_bucket-IsSane : (cps burst : ℤ) (i : ℕ) → IsRate cps burst → IsSane (new_bucket cps burst i)
unfolding new_bucket
new_bucket-IsSane cps burst i r = record { rate = r; nonneg = refl; within = omega arith }

init-enlist :
    (m : Module) (p : ℕ) (cps burst : ℤ)
    → mytbf_init (answers p) cps burst m ≡ enlist cps burst p (loaded m)
unfolding mytbf_init
init-enlist m p cps burst = ground arith

-- What `mytbf_init` with those answers comes to.
abbrev pub Made : Module → ℕ → ℤ → ℤ → Type 0
Made m p cps burst =
    ((i : ℕ) × (m' : Module) × (mytbf_init (answers p) cps burst m ≡ handle p m')
      × IsValid m'
      × (get_elem? m.job i ≡ some none)
      × ((j : ℕ) → j < i → (q : ℕ) × (get_elem? m.job j ≡ some (some q)))
      × (m'.job ≡ set m.job i (some p))
      × (m'.heap
          ≡ update m.heap p (some (record { cps = cps; burst = burst; token = pos 0; pos = i }))))
    ⊎ ((mytbf_init (answers p) cps burst m ≡ exits) × Full m.job)

loaded-job : (m : Module) → (loaded m).job ≡ m.job
loaded-job m = ground arith

loaded-heap : (m : Module) → (loaded m).heap ≡ m.heap
loaded-heap m = ground arith

enlist-free :
    (m : Module) (p i : ℕ) (cps burst : ℤ)
    → first_free m.job 0 ≡ pos i
    → enlist cps burst p m
      ≡ handle p (record m {
        job = set m.job i (some p);
        heap = update m.heap p (some (new_bucket cps burst i));
      })
unfolding enlist
enlist-free m p i cps burst e = ground (arith, e)

enlist-full :
    (m : Module) (p : ℕ) (cps burst : ℤ)
    → first_free m.job 0 ≡ negsuc 0
    → enlist cps burst p m ≡ exits
unfolding enlist
enlist-full m p cps burst e = ground (arith, e)

abbrev fresh_at : ℤ → ℤ → ℕ → Bucket
fresh_at cps burst i = record { cps = cps; burst = burst; token = pos 0; pos = i }

abbrev enlisted : Module → ℕ → ℕ → ℤ → ℤ → Module
enlisted m p i cps burst = record (loaded m) {
  job = set m.job i (some p);
  heap = update m.heap p (some (fresh_at cps burst i));
}

init-enlisted :
    (m : Module) (p i : ℕ) (cps burst : ℤ)
    → first_free m.job 0 ≡ pos i
    → mytbf_init (answers p) cps burst m ≡ handle p (enlisted m p i cps burst)
unfolding new_bucket
init-enlisted m p i cps burst e =
    init-enlist m p cps burst
    ∙ enlist-free (loaded m) p i cps burst (ap (λ js. first_free js 0) (loaded-job m) ∙ e)
    ∙ rw (loaded-job m, loaded-heap m)

enlisted-IsValid :
    (m : Module) (p i : ℕ) (cps burst : ℤ)
    → IsValid m
    → m.heap p ≡ none
    → IsRate cps burst
    → get_elem? m.job i ≡ some none
    → IsValid (enlisted m p i cps burst)
unfolding new_bucket
enlisted-IsValid m p i cps burst v fresh r free = record {
  table = IsTable-enlist v.table i p (fresh_at cps burst i) free fresh refl;
  sane = λ q c f. elim (Bool-cases (p == q)) [
    | inl same ↦ subst IsSane (ground arith) (new_bucket-IsSane cps burst i r)
    | inr other ↦ v.sane q c (ground arith)
  ];
}

-- With no error of the system, memory that was free, and a rate and a burst that are not negative
-- and together in the range of int, `mytbf_init` gives the bucket the first free slot of the table,
-- with no token in it, and leaves the other buckets as they are; the process exits where the table
-- is full.
pub mytbf_init_lem :
    (m : Module) (p : ℕ) (cps burst : ℤ)
    → IsValid m
    → m.heap p ≡ none
    → IsRate cps burst
    → Made m p cps burst
mytbf_init_lem m p cps burst v fresh r = elim (first_free_cases m.job 0) [
  | inl (i, e, free) ↦ inl (
    i,
    enlisted m p i cps burst,
    init-enlisted m p i cps burst (e ∙ ap pos (omega arith)),
    enlisted-IsValid m p i cps burst v fresh r free,
    free,
    first_free-taken m.job 0 i e,
    refl,
    refl,
  )
  | inr (e, full) ↦ inr (
    init-enlist m p cps burst
        ∙ enlist-full (loaded m) p cps burst (ap (λ js. first_free js 0) (loaded-job m) ∙ e),
    full,
  )
]

-- The reasons for which `mytbf_init` ends the process.
abbrev pub Ends : Module → InitCalls → Type 0
Ends m c =
    (c.create_direct ≡ false)
    ⊎ ((c.create_once ≡ false) × (m.once_done ≡ false))
    ⊎ ((p : ℕ) × (c.malloc ≡ some p) × Full m.job)

-- The search of a full table finds nothing.
pub first_free-Full : (js : List (Option ℕ)) (k : ℕ) → Full js → first_free js k ≡ negsuc 0
unfolding first_free
first_free-Full [] k f = refl
first_free-Full (none ∷ js) k f = absurd (f)
first_free-Full (some x ∷ js) k f = first_free-Full js (suc k) f

init-Full :
    (m : Module) (c : InitCalls) (p : ℕ) (cps burst : ℤ)
    → c.malloc ≡ some p
    → Full m.job
    → mytbf_init c cps burst m ≡ exits
unfolding mytbf_init enlist
init-Full m c p cps burst e f = ground (arith, first_free-Full m.job 0 f)

exits-first_free :
    (m : Module) (c : InitCalls) (p : ℕ) (cps burst : ℤ)
    → c.create_direct ≡ true
    → (c.create_once ≡ true) ⊎ (m.once_done ≡ true)
    → c.malloc ≡ some p
    → mytbf_init c cps burst m ≡ exits
    → (i : ℕ) → first_free m.job 0 ≢ pos i
unfolding mytbf_init enlist
exits-first_free m c p cps burst d o a h i e = ground (arith, e)

no_exit_without_memory :
    (m : Module) (c : InitCalls) (cps burst : ℤ)
    → c.create_direct ≡ true
    → (c.create_once ≡ true) ⊎ (m.once_done ≡ true)
    → c.malloc ≡ none
    → mytbf_init c cps burst m ≢ exits
unfolding mytbf_init
no_exit_without_memory m c cps burst d o a h = ground arith

Full-exits :
    (m : Module) (c : InitCalls) (cps burst : ℤ)
    → mytbf_init c cps burst m ≡ exits
    → c.create_direct ≡ true
    → (c.create_once ≡ true) ⊎ (m.once_done ≡ true)
    → (p : ℕ) × (c.malloc ≡ some p) × Full m.job
Full-exits m c cps burst h d o = elim (Option-cases c.malloc) [
  | inl a ↦ absurd (no_exit_without_memory m c cps burst d o a h)
  | inr (p, a) ↦ elim (first_free_cases m.job 0) [
    | inl (i, e, _) ↦ absurd (exits-first_free m c p cps burst d o a h (0 + i) e)
    | inr (_, full) ↦ (p, a, full)
  ]
]

Ends-exits :
    (m : Module) (c : InitCalls) (cps burst : ℤ) → mytbf_init c cps burst m ≡ exits → Ends m c
Ends-exits m c cps burst h = elim (Bool-cases c.create_direct) [
  | inr d ↦ inl d
  | inl d ↦ elim (Bool-cases c.create_once) [
    | inl o ↦ inr (inr (Full-exits m c cps burst h d (inl o)))
    | inr o ↦ elim (Bool-cases m.once_done) [
      | inl l ↦ inr (inr (Full-exits m c cps burst h d (inr l)))
      | inr l ↦ inr (inl (o, l))
    ]
  ]
]

exits-Ends :
    (m : Module) (c : InitCalls) (cps burst : ℤ) → Ends m c → mytbf_init c cps burst m ≡ exits
unfolding mytbf_init
exits-Ends m c cps burst (inl d) = ground arith
exits-Ends m c cps burst (inr (inl (o, l))) = ground arith
exits-Ends m c cps burst (inr (inr (p, a, full))) = init-Full m c p cps burst a full

-- `mytbf_init` ends the process exactly when a thread cannot be created, or when there is memory
-- for the bucket and no free slot in the table.
pub mytbf_init_exits :
    (m : Module) (c : InitCalls) (cps burst : ℤ) → (mytbf_init c cps burst m ≡ exits) ↔ Ends m c
mytbf_init_exits m c cps burst = (Ends-exits m c cps burst, exits-Ends m c cps burst)

-- Each call of `mytbf_init` that makes a bucket creates a thread and registers the clean-up
-- again, and the first creates two and registers it twice.
pub mytbf_init-tickers :
    (m : Module) (p q : ℕ) (cps burst : ℤ) {m' : Module}
    → mytbf_init (answers p) cps burst m ≡ handle q m'
    → (q ≡ p)
      × (m'.once_done ≡ true)
      × (m'.tickers ≡ (if m.once_done then m.tickers + 1 else m.tickers + 2))
      × (m'.unloads ≡ (if m.once_done then m.unloads + 1 else m.unloads + 2))
unfolding mytbf_init
mytbf_init-tickers m p q cps burst h = ground arith
