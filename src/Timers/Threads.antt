-- ===== src/Timers/Threads.antt =====
-- posix/anytimer/timer.c: one thread counts seconds down and gives tokens, and another fires the
-- timers for each token. A pointer is an address in the heap; `none` is an access to freed memory.
pub mod Freed
use lhq_linux_c.Base.{
  ℕ, zero, suc, ◌+◌, ◌-◌, ◌*◌, ◌/◌, ◌%◌, ◌^◌, ◌≤◌, ◌<◌, ◌≡◌, refl, sym, ap, ap₂, ◌∙◌, subst,
  fun_ext, ◌≢◌, ◌⊎◌, inl, inr, ◌↔◌, Bool, true, false, ◌&&◌, ◌||◌, not, Option, none, some, List,
  [], ◌∷◌, ◌++◌, map, arith, ltb, leb, ◌==◌, if◌then◌else◌, ltb→lt, lt→ltb, ==_iff, tests,
  Bool-cases, Option-cases, update, length, get_elem?, set, take, drop, replicate, length-append,
  length-set, length-replicate, length-take, length-drop, get_elem?-set_self, get_elem?-set_ne,
  lt_of_get_elem?, take-append, drop-append, take-append-drop, get_elem?-of_lt, ℤ, pos, negsuc,
  pos_part, neg_part, sub_ℕ, ◌≤ℤ◌, ◌<ℤ◌, ltb_ℤ, eqb_ℤ, leb_ℤ, wrap_int, ◌+ℤ◌, ◌-ℤ◌, IsInt, +ℤ_parts,
  -ℤ_parts, +ℤ-IsInt, -ℤ-IsInt, eq_of_parts, +ℤ-pos, -ℤ-pos, int_laws, first_free, Full,
  first_free_cases,
}
use lhq_linux_c.Table.{each_slot}

abbrev pub maxsize : ℕ
maxsize = 1024

-- `struct tim_t`.
pub record Tim : Type 0 where
  pub f : ℕ
  pub time : ℤ
  pub pos : ℤ
  pub arg : ℕ

-- `arr`, the memory, and `token`.
pub record Module : Type 0 where
  pub arr : List (Option ℕ)
  pub heap : ℕ → Option Tim
  pub token : ℤ

abbrev pub Calls : Type 0
Calls = List (ℕ × ℕ)

-- `destoryTimer`: free.
unfoldable pub destory_timer : ℕ → (ℕ → Option Tim) → (ℕ → Option Tim)
destory_timer p h = update h p none

-- The loop of `checkArr`: a timer that fires is freed, and its pointer stays in `arr`.
unfoldable pub check_from : List (Option ℕ) → (ℕ → Option Tim) → Option (Calls × (ℕ → Option Tim))
check_from [] h = some ([], h)
check_from (none ∷ ps) h = check_from ps h
check_from (some p ∷ ps) h = elim (h p) [
  | none ↦ none
  | some t ↦ elim (eqb_ℤ t.time (pos 0)) [
    | true ↦ elim (check_from ps (destory_timer p h)) [
      | none ↦ none
      | some (calls, h') ↦ some ((t.f, t.arg) ∷ calls, h')
    ]
    | false ↦ check_from ps h
  ]
]

pub data Checked : Type 0 where
  waits : Checked
  faults : Checked
  fires : Calls → Module → Checked

-- `checkArr`, from the test of the token on.
unfoldable pub check_arr : Module → Checked
check_arr m = if leb_ℤ m.token (pos 0) then waits else (elim (check_from m.arr m.heap) [
  | none ↦ faults
  | some (calls, h) ↦ fires calls (record m { heap = h; token = m.token -ℤ pos 1 })
])

unfoldable pub one_less : Tim → Tim
one_less t = record t { time = t.time -ℤ pos 1 }

unfoldable pub sub_time : Module → Option Module
unfolding each_slot
sub_time m = elim (each_slot one_less m.arr m.heap) [
  | none ↦ none
  | some h ↦ some (record m { heap = h })
]

-- A second of `tim_routine`.
unfoldable pub tim_routine : Module → Option Module
unfolding sub_time
tim_routine m = elim (sub_time m) [
  | none ↦ none
  | some m' ↦ some (record m' { token = m'.token +ℤ pos 1 })
]

-- What `initTimer` returns, for what the two calls of pthread_create answer.
unfoldable pub init_timer : Bool → Bool → ℤ
init_timer timer_made checker_made =
    if timer_made then (if checker_made then pos 0 else negsuc 1) else negsuc 0

unfoldable pub find_pos : Module → ℤ
find_pos m = first_free m.arr 0

-- `memory` is what malloc returns; without a free slot the new timer is not freed.
unfoldable pub set_timer : Option ℕ → ℤ → ℕ → ℕ → Module → ℤ × Module
set_timer none time func arg m = (negsuc 0, m)
set_timer (some p) time func arg m =
    let t : Tim = record { f = func; time = time; pos = find_pos m; arg = arg } in
    let stored : Module = record m { heap = update m.heap p (some t) } in
    elim (find_pos m) [
      | negsuc k ↦ (negsuc 1, stored)
      | pos i ↦ (pos 0, record stored { arr = set m.arr i (some p) })
    ]
