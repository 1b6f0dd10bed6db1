-- ===== src/OldBucket.antt =====
-- socket/stream_media/server/mytbf_old.c: the token buckets before their revision. The fields of
-- `Module` are the static variables of the file, and a pointer is an address in its heap.
pub mod Init
mod Tests
use lhq_linux_c.Base.{
  ℕ, zero, suc, ◌+◌, ◌-◌, ◌*◌, ◌/◌, ◌%◌, ◌^◌, ◌≤◌, ◌<◌, ◌≡◌, refl, sym, ap, ap₂, ◌∙◌, subst,
  fun_ext, ◌≢◌, ◌⊎◌, inl, inr, ◌↔◌, Bool, true, false, ◌&&◌, ◌||◌, not, Option, none, some, List,
  [], ◌∷◌, ◌++◌, map, arith, ltb, leb, ◌==◌, if◌then◌else◌, ltb→lt, lt→ltb, ==_iff, tests,
  Bool-cases, Option-cases, update, length, get_elem?, set, take, drop, replicate, length-append,
  length-set, length-replicate, length-take, length-drop, get_elem?-set_self, get_elem?-set_ne,
  lt_of_get_elem?, take-append, drop-append, take-append-drop, get_elem?-of_lt, ℤ, pos, negsuc,
  pos_part, neg_part, sub_ℕ, ◌≤ℤ◌, ◌<ℤ◌, ltb_ℤ, eqb_ℤ, leb_ℤ, wrap_int, ◌+ℤ◌, ◌-ℤ◌, IsInt, +ℤ_parts,
  -ℤ_parts, +ℤ-IsInt, -ℤ-IsInt, eq_of_parts, int_laws, first_free, Full, first_free_cases,
}
use lhq_linux_c.Table.{each_slot, free_slots}

abbrev pub mytbf_max : ℕ
mytbf_max = 1024

-- `struct mytbf_st`, without its mutex and its condition variable.
pub record Bucket : Type 0 where
  pub cps : ℤ
  pub pos : ℤ
  pub token : ℤ
  pub limit : ℤ

-- `tickers` counts the threads, and `unloads` how often `module_unload` is registered.
pub record Module : Type 0 where
  pub job : List (Option ℕ)
  pub heap : ℕ → Option Bucket
  pub once_done : Bool
  pub tickers : ℕ
  pub unloads : ℕ

unfoldable pub find_pos_unlock : Module → ℤ
find_pos_unlock m = first_free m.job 0

unfoldable pub module_unload : Module → Option Module
unfolding free_slots
module_unload m = elim (free_slots m.job m.heap) [
  | none ↦ none
  | some h ↦ some (record m { heap = h })
]

unfoldable pub refill : Bucket → Bucket
refill b =
    let t = b.token +ℤ b.cps in
    if ltb_ℤ b.limit t then record b { token = b.limit } else record b { token = t }

unfoldable pub alrm_handle : Module → Option Module
unfolding each_slot
alrm_handle m = elim (each_slot refill m.job m.heap) [
  | none ↦ none
  | some h ↦ some (record m { heap = h })
]

-- `none` is exit(1), on an error of pthread_create.
unfoldable pub module_load : Bool → Module → Option Module
module_load false m = none
module_load true m = some (record m { tickers = suc m.tickers; unloads = suc m.unloads })

unfoldable pub once_load : Bool → Module → Option Module
once_load created m =
    if m.once_done then some m else module_load created (record m { once_done = true })

pub data InitResult : Type 0 where
  exits : InitResult
  outside : InitResult
  null : Module → InitResult
  handle : ℕ → Module → InitResult

unfoldable pub new_bucket : ℤ → ℤ → ℤ → Bucket
new_bucket cps limit i = record { cps = cps; pos = i; token = pos 0; limit = limit }

-- From `me->pos = find_pos_unlock()` on: the store to `job[me->pos]` stands in front of the test
-- for a negative position, so without a free slot it is a store to `job[-1]`.
unfoldable pub enlist : ℤ → ℤ → ℕ → Module → InitResult
enlist cps limit p m = elim (find_pos_unlock m) [
  | negsuc k ↦ outside
  | pos i ↦ handle p (record m {
    job = set m.job i (some p);
    heap = update m.heap p (some (new_bucket cps limit (pos i)));
  })
]

-- `created` is whether pthread_create succeeds, and `memory` what malloc returns.
unfoldable pub mytbf_init : Bool → Option ℕ → ℤ → ℤ → Module → InitResult
mytbf_init created memory cps limit m = elim (once_load created m) [
  | none ↦ exits
  | some m' ↦ elim memory [ none ↦ null m' | some p ↦ enlist cps limit p m' ]
]

unfoldable pub min : ℤ → ℤ → ℤ
min num1 num2 = if ltb_ℤ num1 num2 then num1 else num2

pub data FetchResult : Type 0 where
  fault : FetchResult
  waits : FetchResult
  took : ℤ → Module → FetchResult

-- One pass through the loop of `mytbf_fetchtoken`: without a token the caller waits.
unfoldable pub mytbf_fetchtoken : ℕ → ℤ → Module → FetchResult
mytbf_fetchtoken p num m = elim (m.heap p) [
  | none ↦ fault
  | some b ↦
      let n = min b.token num in
      if leb_ℤ b.token (pos 0)
      then waits
      else took n (record m { heap = update m.heap p (some (record b { token = b.token -ℤ n })) })
]

-- The test compares `num`, not the content, with the limit.
unfoldable pub give_back : Bucket → ℤ → Bucket
give_back b num =
    let t = b.token +ℤ num in
    if ltb_ℤ b.limit num then record b { token = b.limit } else record b { token = t }

unfoldable pub mytbf_returntoken : ℕ → ℤ → Module → Option (ℤ × Module)
mytbf_returntoken p num m = elim (m.heap p) [
  | none ↦ none
  | some b ↦ some (pos 0, record m { heap = update m.heap p (some (give_back b num)) })
]

-- `job[tmp->pos] = NULL`, where the position of a bucket in the table is never negative.
unfoldable pub mytbf_destroy : ℕ → Module → Option (ℤ × Module)
mytbf_destroy p m = elim (m.heap p) [
  | none ↦ none
  | some b ↦
      some (pos 0, record m { job = set m.job (pos_part b.pos) none; heap = update m.heap p none })
]

unfoldable pub mytbf_checktoken : ℕ → Module → Option (ℤ × Module)
mytbf_checktoken p m = elim (m.heap p) [ none ↦ none | some b ↦ some (b.token, m) ]
