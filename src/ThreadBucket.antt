-- ===== src/ThreadBucket.antt =====
-- posix/other/tbf/mytbf.c: token buckets with a thread that refills them. The static variables of
-- the file are the fields of `Module`, a pointer is an address in its heap, and a critical section
-- is one step. `none` is an access to freed memory.
pub mod Levels
pub mod Sane
pub mod Steps
pub mod Refine
pub mod Unload
mod Tests
use lhq_linux_c.Base.{
  ℕ, zero, suc, ◌+◌, ◌-◌, ◌*◌, ◌/◌, ◌%◌, ◌^◌, ◌≤◌, ◌<◌, ◌≡◌, refl, sym, ap, ap₂, ◌∙◌, subst,
  fun_ext, ◌≢◌, ◌⊎◌, inl, inr, ◌↔◌, Bool, true, false, ◌&&◌, ◌||◌, not, Option, none, some, List,
  [], ◌∷◌, ◌++◌, map, arith, ltb, leb, ◌==◌, if◌then◌else◌, ltb→lt, lt→ltb, ==_iff, tests,
  Bool-cases, Option-cases, update, length, get_elem?, set, take, drop, replicate, length-append,
  length-set, length-replicate, length-take, length-drop, get_elem?-set_self, get_elem?-set_ne,
  lt_of_get_elem?, take-append, drop-append, take-append-drop, get_elem?-of_lt, ℤ, pos, negsuc,
  pos_part, neg_part, sub_ℕ, ◌≤ℤ◌, ◌<ℤ◌, ltb_ℤ, eqb_ℤ, leb_ℤ, wrap_int, ◌+ℤ◌, ◌-ℤ◌, IsInt, +ℤ_parts,
  -ℤ_parts, +ℤ-IsInt, -ℤ-IsInt, eq_of_parts, +ℤ-pos, -ℤ-pos, int_laws, first_free, Full,
  first_free_cases,
}
use lhq_linux_c.Table.{each_slot}

abbrev pub mytbf_max : ℕ
mytbf_max = 1024

-- `struct mytbf_st`, without its mutex and its condition variable.
pub record Bucket : Type 0 where
  pub csp : ℤ
  pub burst : ℤ
  pub token : ℤ
  pub pos : ℕ

-- `pth_once`, and how many threads run `handler`.
pub record Module : Type 0 where
  pub job : List (Option ℕ)
  pub heap : ℕ → Option Bucket
  pub once_done : Bool
  pub handlers : ℕ

abbrev pub start : Module
start = record { job = replicate mytbf_max none; heap = λ p. none; once_done = false; handlers = 0 }

unfoldable pub get_free_pos_unlocked : Module → ℤ
get_free_pos_unlocked m = first_free m.job 0

-- Tokens are added, and cut at `burst`.
unfoldable pub add_tokens : ℤ → Bucket → Bucket
add_tokens n b =
    let t = b.token +ℤ n in
    if ltb_ℤ b.burst t then record b { token = b.burst } else record b { token = t }

unfoldable pub refill : Bucket → Bucket
refill b = add_tokens b.csp b

-- A round of `handler`.
unfoldable pub handler : Module → Option Module
unfolding each_slot
handler m = elim (each_slot refill m.job m.heap) [
  | none ↦ none
  | some h ↦ some (record m { heap = h })
]

-- An error of pthread_create is only printed.
unfoldable pub mod_load : Bool → Module → Module
mod_load created m = if created then record m { handlers = suc m.handlers } else m

unfoldable pub once_load : Bool → Module → Module
unfolding mod_load
once_load created m = if m.once_done then m else mod_load created (record m { once_done = true })

unfoldable pub new_bucket : ℤ → ℤ → ℕ → Bucket
new_bucket csp burst i = record { csp = csp; burst = burst; token = pos 0; pos = i }

-- The part of `mytbf_init` after malloc: without a free slot the memory is freed again.
unfoldable pub enlist : ℤ → ℤ → ℕ → Module → Option ℕ × Module
enlist csp burst p m = elim (get_free_pos_unlocked m) [
  | negsuc k ↦ (none, m)
  | pos i ↦ (
    some p,
    record m { job = set m.job i (some p); heap = update m.heap p (some (new_bucket csp burst i)) },
  )
]

-- `created` is whether pthread_create succeeds, and `memory` what malloc returns.
unfoldable pub mytbf_init : Bool → Option ℕ → ℤ → ℤ → Module → Option ℕ × Module
mytbf_init created none csp burst m = (none, once_load created m)
mytbf_init created (some p) csp burst m = enlist csp burst p (once_load created m)

-- `-EINVAL`.
abbrev pub einval : ℤ
einval = negsuc 21

pub data FetchResult : Type 0 where
  fault : FetchResult
  waits : FetchResult
  gives : ℤ → Module → FetchResult

unfoldable pub min : ℤ → ℤ → ℤ
min a b = if ltb_ℤ a b then a else b

-- One pass through the loop of `mytbf_fetchtoken`: without a token the caller waits.
unfoldable pub mytbf_fetchtoken : ℕ → ℤ → Module → FetchResult
mytbf_fetchtoken p size m = if leb_ℤ size (pos 0) then gives einval m else (elim (m.heap p) [
  | none ↦ fault
  | some b ↦
      let n = min b.token size in
      if leb_ℤ b.token (pos 0)
      then waits
      else gives n (record m { heap = update m.heap p (some (record b { token = b.token -ℤ n })) })
])

unfoldable pub mytbf_returntoken : ℕ → ℤ → Module → Option (ℤ × Module)
mytbf_returntoken p size m = if leb_ℤ size (pos 0) then some (einval, m) else (elim (m.heap p) [
  | none ↦ none
  | some b ↦ some (size, record m { heap = update m.heap p (some (add_tokens size b)) })
])

unfoldable pub mytbf_destroy : ℕ → Module → Option (ℤ × Module)
mytbf_destroy p m = elim (m.heap p) [
  | none ↦ none
  | some b ↦ some (pos 0, record m { job = set m.job b.pos none; heap = update m.heap p none })
]

-- free(job[i]);
unfoldable pub free_slot : Option (Option ℕ) → Module → Option Module
free_slot none m = some m
free_slot (some none) m = some m
free_slot (some (some p)) m = elim (m.heap p) [
  | none ↦ none
  | some b ↦ some (record m { heap = update m.heap p none })
]

-- if (job[i] != NULL) mytbf_destroy(job[i]);
unfoldable pub destroy_slot : Option (Option ℕ) → Module → Option Module
destroy_slot none m = some m
destroy_slot (some none) m = some m
destroy_slot (some (some p)) m = elim (mytbf_destroy p m) [ none ↦ none | some (r, m') ↦ some m' ]

-- The loop of `mod_unload`, with `n` slots left.
unfoldable pub unload_from : ℕ → ℕ → Module → Option Module
unload_from zero i m = some m
unload_from (suc n) i m = elim (destroy_slot (get_elem? m.job i) m) [
  | none ↦ none
  | some m1 ↦ elim (free_slot (get_elem? m1.job i) m1) [
    | none ↦ none
    | some m2 ↦ unload_from n (suc i) m2
  ]
]

-- The thread of `handler` is cancelled and joined first: to join one that was never created is a
-- fault.
unfoldable pub mod_unload : Module → Option Module
mod_unload m =
    if m.handlers == 0
    then none
    else unload_from mytbf_max 0 (record m { handlers = m.handlers - 1 })

-- What a program does with the module, and what it gets.
pub data Call : Type 0 where
  inits : Bool → Option ℕ → ℤ → ℤ → Call
  fetches : ℕ → ℤ → Call
  gives_back : ℕ → ℤ → Call
  destroys : ℕ → Call
  tick : Call

pub data Answer : Type 0 where
  faulted : Answer
  waiting : Answer
  handle : Option ℕ → Answer
  number : ℤ → Answer
  ticked : Answer

unfoldable pub fetched : Module → FetchResult → Answer × Module
fetched m fault = (faulted, m)
fetched m waits = (waiting, m)
fetched m (gives n m') = (number n, m')

unfoldable pub numbered : Module → Option (ℤ × Module) → Answer × Module
numbered m none = (faulted, m)
numbered m (some (n, m')) = (number n, m')

unfoldable pub round : Module → Option Module → Answer × Module
round m none = (faulted, m)
round m (some m') = (ticked, m')

unfoldable pub step : Call → Module → Answer × Module
step (inits created memory csp burst) m =
    let (o, m') = mytbf_init created memory csp burst m in (handle o, m')
step (fetches p size) m = fetched m (mytbf_fetchtoken p size m)
step (gives_back p size) m = numbered m (mytbf_returntoken p size m)
step (destroys p) m = numbered m (mytbf_destroy p m)
step tick m = round m (handler m)

unfoldable pub run : List Call → Module → List Answer
run [] m = []
run (c ∷ cs) m = (step c m).0 ∷ run cs ((step c m).1)
