-- ===== src/SignalBucket.antt =====
-- signal/tokenBucket.c: token buckets of a program with one thread. The fields of `Module` are the
-- static variables of the file, and a pointer is an address in its heap.
pub mod Fetch
mod Tests
use lhq_linux_c.Base.{
  ℕ, zero, suc, ◌+◌, ◌-◌, ◌*◌, ◌/◌, ◌%◌, ◌^◌, ◌≤◌, ◌<◌, ◌≡◌, refl, sym, ap, ap₂, ◌∙◌, subst,
  fun_ext, ◌≢◌, ◌⊎◌, inl, inr, ◌↔◌, Bool, true, false, ◌&&◌, ◌||◌, not, Option, none, some, List,
  [], ◌∷◌, ◌++◌, map, arith, ltb, leb, ◌==◌, if◌then◌else◌, ltb→lt, lt→ltb, ==_iff, tests,
  Bool-cases, Option-cases, update, length, get_elem?, set, take, drop, replicate, length-append,
  length-set, length-replicate, length-take, length-drop, get_elem?-set_self, get_elem?-set_ne,
  lt_of_get_elem?, take-append, drop-append, take-append-drop, get_elem?-of_lt, ℤ, pos, negsuc,
  pos_part, neg_part, sub_ℕ, ◌≤ℤ◌, ◌<ℤ◌, ltb_ℤ, eqb_ℤ, leb_ℤ, wrap_int, ◌+ℤ◌, ◌-ℤ◌, IsInt, +ℤ_parts,
  -ℤ_parts, +ℤ-IsInt, -ℤ-IsInt, eq_of_parts, int_laws, first_free, Full, first_free_cases,
}
use lhq_linux_c.Table.{each_slot, free_slots}

abbrev pub maxsize : ℕ
maxsize = 1024

-- `mytb_st`.
pub record Bucket : Type 0 where
  pub cps : ℤ
  pub burst : ℤ
  pub token : ℤ
  pub pos : ℕ

-- `job` and `initflag`.
pub record Module : Type 0 where
  pub job : List (Option ℕ)
  pub heap : ℕ → Option Bucket
  pub initflag : Bool

unfoldable pub find_vacant_pos : List (Option ℕ) → ℤ
find_vacant_pos job = first_free job 0

unfoldable pub refill : Bucket → Bucket
refill b =
    let t = b.token +ℤ b.cps in
    if leb_ℤ b.burst t then record b { token = b.burst } else record b { token = t }

-- The handler of SIGALRM; `none` is an access to freed memory.
unfoldable pub alrm_handler : Module → Option Module
unfolding each_slot
alrm_handler m = elim (each_slot refill m.job m.heap) [
  | none ↦ none
  | some h ↦ some (record m { heap = h })
]

unfoldable pub module_unload : Module → Option Module
unfolding free_slots
module_unload m = elim (free_slots m.job m.heap) [
  | none ↦ none
  | some h ↦ some (record m { heap = h })
]

-- From `job[pos] = mt` on; no alarm arrives before the fields are set.
unfoldable pub enlist : ℤ → ℤ → ℕ → ℕ → Module → ℕ × Module
enlist cps burst i p m = (
  p,
  record {
    job = set m.job i (some p);
    heap = update m.heap p (some (record { cps = cps; burst = burst; token = pos 0; pos = i }));
    initflag = true;
  },
)

-- `memory` is what malloc returns; `none` is NULL.
unfoldable pub mytb_init : Option ℕ → ℤ → ℤ → Module → Option (ℕ × Module)
mytb_init memory cps burst m = elim (find_vacant_pos m.job) [
  | negsuc k ↦ none
  | pos i ↦ elim memory [ none ↦ none | some p ↦ some (enlist cps burst i p m) ]
]

pub data FetchResult : Type 0 where
  fault : FetchResult
  waits : FetchResult
  gives : ℤ → Module → FetchResult

-- One pass through the loop of `Mytb_Fetchtoken`: without a token it pauses.
unfoldable pub mytb_fetchtoken : ℕ → ℤ → Module → FetchResult
mytb_fetchtoken p n m = if ltb_ℤ n (pos 0) then gives (negsuc 0) m else (elim (m.heap p) [
  | none ↦ fault
  | some b ↦
      let res = (if ltb_ℤ b.token n then b.token else n) in
      if leb_ℤ b.token (pos 0)
      then waits
      else gives res
          (record m { heap = update m.heap p (some (record b { token = b.token -ℤ res })) })
])

unfoldable pub give_back : Bucket → ℤ → Bucket
give_back b n =
    let t = b.token +ℤ n in
    if ltb_ℤ b.burst t then record b { token = b.burst } else record b { token = t }

unfoldable pub mytb_returntoken : ℕ → ℤ → Module → Option (ℤ × Module)
mytb_returntoken p n m = if ltb_ℤ n (pos 0) then some (negsuc 0, m) else (elim (m.heap p) [
  | none ↦ none
  | some b ↦ some (n, record m { heap = update m.heap p (some (give_back b n)) })
])

-- The pointer is NULL for `none`.
unfoldable pub mytb_destroy : Option ℕ → Module → Option (ℤ × Module)
mytb_destroy none m = some (negsuc 0, m)
mytb_destroy (some p) m = elim (m.heap p) [
  | none ↦ none
  | some b ↦ some (pos 0, record m { job = set m.job b.pos none; heap = update m.heap p none })
]
