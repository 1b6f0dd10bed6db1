-- ===== src/Pool.antt =====
-- socket/processPool: the pool of processes of server.c, test.c and others.c, as the parent sees
-- it. The three programs have the same table and the same loops over it, which stand here; each
-- program is a child module. What `fork` and `kill` answer is an argument. The two counters stay
-- far below the bound of int, and are numbers.
pub mod Scan
pub mod Slots
pub mod Control
pub mod Bounds
pub mod Server
pub mod Test
pub mod Others
mod Tests
use lhq_linux_c.Base.{
  ℕ, zero, suc, ◌+◌, ◌-◌, ◌*◌, ◌/◌, ◌%◌, ◌^◌, ◌≤◌, ◌<◌, ◌≡◌, refl, sym, ap, ap₂, ◌∙◌, subst,
  fun_ext, ◌≢◌, ◌⊎◌, inl, inr, ◌↔◌, Bool, true, false, ◌&&◌, ◌||◌, not, Option, none, some, List,
  [], ◌∷◌, ◌++◌, map, arith, ltb, leb, ◌==◌, if◌then◌else◌, ltb→lt, lt→ltb, ==_iff, tests,
  Bool-cases, Option-cases, update, length, get_elem?, set, take, drop, replicate, length-append,
  length-set, length-replicate, length-take, length-drop, get_elem?-set_self, get_elem?-set_ne,
  lt_of_get_elem?, take-append, drop-append, take-append-drop, get_elem?-of_lt, ℤ, pos, negsuc,
  pos_part, neg_part, sub_ℕ, ◌≤ℤ◌, ◌<ℤ◌, ltb_ℤ, eqb_ℤ, leb_ℤ, wrap_int, ◌+ℤ◌, ◌-ℤ◌, IsInt, +ℤ_parts,
  -ℤ_parts, +ℤ-IsInt, -ℤ-IsInt, eq_of_parts, int_laws, first_free, Full, first_free_cases,
}

abbrev pub lowest_idle : ℕ
lowest_idle = 5

abbrev pub max_idle : ℕ
max_idle = 10

abbrev pub max_working : ℕ
max_working = 20

abbrev pub state_idle : ℕ
state_idle = 0

abbrev pub state_busy : ℕ
state_busy = 1

-- `struct task_t`; a pid of -1 is a free slot.
pub record Task : Type 0 where
  pub pid : ℤ
  pub state : ℕ

-- `pool`, `idel_count` and `busy_count`.
pub record Pool : Type 0 where
  pub tasks : List Task
  pub idle : ℕ
  pub busy : ℕ

abbrev pub used : Task → Bool
used t = not (eqb_ℤ t.pid (negsuc 0))

-- The end of a function of the parent: a write outside the pool, the end of the process, or the
-- value returned and the pool.
pub data Call : Type 0 where
  outside : Call
  exits : Call
  returns : ℤ → Pool → Call

-- The loop that looks for a free slot; without one it ends at the length of the pool.
unfoldable pub free_slot : List Task → ℕ
free_slot [] = 0
free_slot (t ∷ ts) = let rest = free_slot ts in if used t then suc rest else 0

-- The rest of the function that adds a task, for what `fork` answers.
unfoldable pub fork_into : ℤ → Pool → Call
fork_into pid p = elim (get_elem? p.tasks (free_slot p.tasks)) [
  | none ↦ outside
  | some t ↦
      if ltb_ℤ pid (pos 0)
      then exits
      else returns (pos 0) (record p {
        tasks = set p.tasks (free_slot p.tasks) (record { pid = pid; state = state_idle });
        idle = suc p.idle;
      })
]

-- The loop that deletes a task: the pid that gets SIGTERM, and the slots.
unfoldable pub del_from : List Task → Option (ℤ × List Task)
del_from [] = none
del_from (t ∷ ts) =
    let rest = del_from ts in
    if used t && (t.state == state_idle)
    then some (t.pid, record t { pid = negsuc 0 } ∷ ts)
    else (elim rest [ none ↦ none | some (k, ts') ↦ some (k, t ∷ ts') ])

unfoldable pub deleted_at : Pool → Option (ℤ × List Task) → ℤ × Option ℤ × Pool
deleted_at p none = (pos 0, none, p)
deleted_at p (some (k, ts)) = (pos 0, some k, record p { tasks = ts; idle = p.idle - 1 })

-- The function that deletes a task: what it returns, the signal that it sends, and the pool.
unfoldable pub del_task : Pool → ℤ × Option ℤ × Pool
del_task p = if p.idle == 0 then (negsuc 0, none, p) else deleted_at p (del_from p.tasks)

-- The body of the loop of `scan_pool` on a slot, in front of what the other slots come to: the
-- slots, the idle and the busy tasks for which `kill(pid, 0)` finds a process; `none` is `abort`.
unfoldable pub scan_slot : (ℤ → Bool) → Task → List Task → ℕ → ℕ → Option (List Task × ℕ × ℕ)
scan_slot alive t ts i b =
    if not (used t)
    then some (t ∷ ts, i, b)
    else (if not (alive t.pid)
        then some (record t { pid = negsuc 0 } ∷ ts, i, b)
        else (if t.state == state_idle
            then some (t ∷ ts, suc i, b)
            else (if t.state == state_busy then some (t ∷ ts, i, suc b) else none)))

unfoldable pub scan_from : (ℤ → Bool) → List Task → Option (List Task × ℕ × ℕ)
scan_from alive [] = some ([], 0, 0)
scan_from alive (t ∷ ts) = elim (scan_from alive ts) [
  | none ↦ none
  | some (ts', i, b) ↦ scan_slot alive t ts' i b
]

unfoldable pub scan_pool : (ℤ → Bool) → Pool → Option Pool
scan_pool alive p = elim (scan_from alive p.tasks) [
  | none ↦ none
  | some (ts, i, b) ↦ some (record { tasks = ts; idle = i; busy = b })
]

-- `for (i = 0; i < lowestIdleProcess - idel_count; i++)`: the bound is computed in every round.
-- `add` is the function that adds a task, for what `fork` answers in round `i`.
unfoldable pub grow_from : (ℤ → Pool → Call) → (ℕ → ℤ) → ℕ → ℕ → Pool → Call
grow_from add forks zero i p = returns (pos 0) p
grow_from add forks (suc n) i p =
    if ltb (i + p.idle) lowest_idle
    then (elim (add (forks i) p) [
      | outside ↦ outside
      | exits ↦ exits
      | returns r p' ↦ grow_from add forks n (suc i) p'
    ])
    else returns (pos 0) p

-- `for (i = 0; i < idel_count - maxIdleProcess; i++)`.
unfoldable pub shrink_from : ℕ → ℕ → Pool → Pool
shrink_from zero i p = p
shrink_from (suc n) i p =
    let rest = shrink_from n (suc i) ((del_task p).2) in
    if ltb (i + max_idle) p.idle then rest else p

-- The control of the pool behind `scan_pool`. A loop has at most as many rounds as its first bound.
unfoldable pub control : (ℤ → Pool → Call) → (ℕ → ℤ) → Pool → Call
control add forks p =
    if ltb max_idle p.idle
    then returns (pos 0) (shrink_from (p.idle - max_idle) 0 p)
    else (if ltb p.idle lowest_idle then grow_from add forks lowest_idle 0 p else returns (pos 0) p)

-- One round of the loop of `main`; `abort` ends the process.
unfoldable pub main_round : (ℤ → Pool → Call) → (ℤ → Bool) → (ℕ → ℤ) → Pool → Call
main_round add alive forks p = elim (scan_pool alive p) [
  | none ↦ exits
  | some p' ↦ control add forks p'
]

-- The pool before the first task.
unfoldable pub empty_pool : Pool
empty_pool = record {
  tasks = replicate max_working (record { pid = negsuc 0; state = state_idle });
  idle = 0;
  busy = 0;
}

-- The first tasks, `n` of them from number `i`.
unfoldable pub start_from : (ℤ → Pool → Call) → (ℕ → ℤ) → ℕ → ℕ → Pool → Call
start_from add forks zero i p = returns (pos 0) p
start_from add forks (suc n) i p = elim (add (forks i) p) [
  | outside ↦ outside
  | exits ↦ exits
  | returns r p' ↦ start_from add forks n (suc i) p'
]

-- What `print_pool` writes: `_`, `*` or `x` for each slot.
unfoldable pub print_from : List Task → List ℕ
print_from [] = []
print_from (t ∷ ts) =
    (if not (used t) then b'_' else (if t.state == state_idle then b'*' else b'x')) ∷ print_from ts

-- A round of the child's loop: the process ends, or goes on, with the pids that were signalled and
-- the shared slots.
pub data Job : Type 0 where
  job_exits : List ℤ → List Task → Job
  job_next : List ℤ → List Task → Job

-- `pool[pos].state = s`, inside the pool.
unfoldable pub mark : ℕ → ℕ → List Task → List Task
mark n s ts = elim (get_elem? ts n) [ none ↦ ts | some t ↦ set ts n (record t { state = s }) ]

-- `pool[pos].pid`, inside the pool.
unfoldable pub pid_at : ℕ → List Task → ℤ
pid_at n ts = elim (get_elem? ts n) [ none ↦ negsuc 0 | some t ↦ t.pid ]
