-- ===== src/TokenBucket.antt =====
-- socket/stream_media/server/mytbf.c: the token buckets that limit the rate of each channel.
-- The static variables of the file are the fields of `Module`; a `mytbf_t *` is an address in
-- its heap. A critical section of a mutex is one step; `none` or `fault` is an access through a
-- pointer to freed memory.
pub mod Invariant
pub mod Fetch
pub mod Calls
pub mod Init
pub mod Rate
pub mod Shutdown
pub mod Tests
use lhq_linux_c.Base.{
  ℕ, ◌+◌, Bool, true, false, Option, none, some, List, [], ◌∷◌, suc, zero, ℤ, pos, negsuc, ◌+ℤ◌,
  ◌-ℤ◌, ltb_ℤ, leb_ℤ, if◌then◌else◌, ◌==◌, set, replicate, update, first_free,
}
use lhq_linux_c.Table.{each_slot, free_slots}

abbrev pub mytbf_max : ℕ
mytbf_max = 1024

-- `struct mytbf_st`, without its mutex and its condition variable.
pub record Bucket : Type 0 where
  pub cps : ℤ
  pub burst : ℤ
  pub token : ℤ
  pub pos : ℕ

abbrev pub Heap : Type 0
Heap = ℕ → Option Bucket

-- The static variables; `tickers` counts the threads that `module_load` has created, and
-- `unloads` how often it has registered `module_unload`.
pub record Module : Type 0 where
  pub job : List (Option ℕ)
  pub heap : Heap
  pub once_done : Bool
  pub tickers : ℕ
  pub unloads : ℕ

-- The static variables as the program starts.
abbrev pub start : Module
start = record {
  job = replicate mytbf_max none;
  heap = λ p. none;
  once_done = false;
  tickers = 0;
  unloads = 0;
}

unfoldable pub min : ℤ → ℤ → ℤ
min a b = if ltb_ℤ a b then a else b

-- The body of the loop of `alrm_handle`, for one bucket.
unfoldable pub refill : Bucket → Bucket
refill b =
    let t = b.token +ℤ b.cps in
    if ltb_ℤ b.burst t then record b { token = b.burst } else record b { token = t }

-- The handler of SIGALRM: every bucket of the table gets its tokens.
unfoldable pub alrm_handle : Module → Option Module
unfolding each_slot
alrm_handle m = elim (each_slot refill m.job m.heap) [
  | none ↦ none
  | some h ↦ some (record m { heap = h })
]

-- What the system answers to the calls of `mytbf_init`.
pub record InitCalls : Type 0 where
  pub create_direct : Bool
  pub create_once : Bool
  pub malloc : Option ℕ

-- `none` is exit(1), on an error of pthread_create.
unfoldable pub module_load : Bool → Module → Option Module
module_load false m = none
module_load true m = some (record m { tickers = suc m.tickers; unloads = suc m.unloads })

unfoldable pub once_load : Bool → Module → Option Module
unfolding module_load
once_load created m =
    if m.once_done then some m else module_load created (record m { once_done = true })

unfoldable pub get_free_pos_unlocked : Module → ℤ
get_free_pos_unlocked m = first_free m.job 0

pub data InitResult : Type 0 where
  exits : InitResult
  null : Module → InitResult
  handle : ℕ → Module → InitResult

unfoldable pub new_bucket : ℤ → ℤ → ℕ → Bucket
new_bucket cps burst i = record { cps = cps; burst = burst; token = pos 0; pos = i }

-- The part of `mytbf_init` after `malloc`, under `mut_job`.
enlist : ℤ → ℤ → ℕ → Module → InitResult
unfolding get_free_pos_unlocked new_bucket
enlist cps burst p m = elim (get_free_pos_unlocked m) [
  | negsuc _ ↦ exits
  | pos i ↦ handle p (record m {
    job = set m.job i (some p);
    heap = update m.heap p (some (new_bucket cps burst i));
  })
]

allocate : Option ℕ → ℤ → ℤ → Module → InitResult
unfolding enlist
allocate none cps burst m = null m
allocate (some p) cps burst m = enlist cps burst p m

unfoldable pub mytbf_init : InitCalls → ℤ → ℤ → Module → InitResult
unfolding module_load once_load allocate
mytbf_init env cps burst m = elim (module_load env.create_direct m) [
  | none ↦ exits
  | some m1 ↦ elim (once_load env.create_once m1) [
    | none ↦ exits
    | some m2 ↦ allocate env.malloc cps burst m2
  ]
]

pub data FetchResult : Type 0 where
  fault : FetchResult
  waits : FetchResult
  took : ℤ → Module → FetchResult

-- One pass through the loop of `mytbf_fetchtoken`: without a token the caller waits.
unfoldable pub mytbf_fetchtoken : ℕ → ℤ → Module → FetchResult
mytbf_fetchtoken p size m = elim (m.heap p) [
  | none ↦ fault
  | some b ↦
      let n = min b.token size in
      let b' = record b { token = b.token -ℤ n } in
      if leb_ℤ b.token (pos 0)
      then waits
      else took n (record m { heap = update m.heap p (some b') })
]

unfoldable pub give_back : Bucket → ℤ → Bucket
give_back b size =
    let t = b.token +ℤ size in
    if ltb_ℤ b.burst t then record b { token = b.burst } else record b { token = t }

unfoldable pub mytbf_returntoken : ℕ → ℤ → Module → Option (ℤ × Module)
mytbf_returntoken p size m = elim (m.heap p) [
  | none ↦ none
  | some b ↦ some (pos 0, record m { heap = update m.heap p (some (give_back b size)) })
]

unfoldable pub mytbf_destroy : ℕ → Module → Option (ℤ × Module)
mytbf_destroy p m = elim (m.heap p) [
  | none ↦ none
  | some b ↦ some (pos 0, record m { job = set m.job b.pos none; heap = update m.heap p none })
]

unfoldable pub mytbf_checktoken : ℕ → Module → Option (ℤ × Module)
mytbf_checktoken p m = elim (m.heap p) [ none ↦ none | some b ↦ some (b.token, m) ]

-- The pointers stay in `job`; to free one that is freed already is a fault.
unfoldable pub module_unload : Module → Option Module
unfolding free_slots
module_unload m = elim (free_slots m.job m.heap) [
  | none ↦ none
  | some h ↦ some (record m { heap = h })
]

-- exit(): the registered functions run, once for each registration.
unfoldable pub run_atexit : ℕ → Module → Option Module
unfolding module_unload
run_atexit zero m = some m
run_atexit (suc n) m = elim (module_unload m) [ none ↦ none | some m' ↦ run_atexit n m' ]
