-- ===== src/Pool/Slots.antt =====
-- socket/processPool: the number of the used slots under the loops over the pool.
use lhq_linux_c.Base.{
  ℕ, zero, suc, ◌+◌, ◌≡◌, refl, sym, ap, ◌∙◌, ◌⊎◌, inl, inr, Bool, true, false, ◌&&◌, Option, none,
  some, List, [], ◌∷◌, arith, ◌==◌, if◌then◌else◌, Bool-cases, length, get_elem?, set, length-set,
  ℤ, pos, negsuc, ltb_ℤ,
}
use lhq_linux_c.Pool.{
  Task, Pool, used, Call, outside, exits, returns, free_slot, fork_into, del_from, deleted_at,
  del_task, max_working, state_idle, state_busy,
}

unfoldable pub count : (Task → Bool) → List Task → ℕ
count q [] = 0
count q (t ∷ ts) = let rest = count q ts in if q t then suc rest else rest

abbrev pub is_idle : Task → Bool
is_idle t = used t && (t.state == state_idle)

abbrev pub is_busy : Task → Bool
is_busy t = used t && (t.state == state_busy)

count_in :
    (q : Task → Bool) (t : Task) (ts : List Task) → q t ≡ true → count q (t ∷ ts) ≡ suc (count q ts)
unfolding count
count_in q t ts e = rw e refl

count_out :
    (q : Task → Bool) (t : Task) (ts : List Task) → q t ≡ false → count q (t ∷ ts) ≡ count q ts
unfolding count
count_out q t ts e = rw e refl

-- The table has its length, and the counters count the used slots.
pub record IsCounted (p : Pool) : Type 0 where
  pub size : length p.tasks ≡ max_working
  pub total : p.idle + p.busy ≡ count used p.tasks

slot_in : (t : Task) (ts : List Task) → used t ≡ true → free_slot (t ∷ ts) ≡ suc (free_slot ts)
unfolding free_slot
slot_in t ts e = rw e refl

slot_out : (t : Task) (ts : List Task) → used t ≡ false → free_slot (t ∷ ts) ≡ 0
unfolding free_slot
slot_out t ts e = rw e refl

-- The loop finds a free slot, or every slot is used and it ends outside.
abbrev pub Found : List Task → Type 0
Found ts =
    ((get_elem? ts (free_slot ts) ≡ none) × (count used ts ≡ length ts))
    ⊎ ((t : Task) × (get_elem? ts (free_slot ts) ≡ some t) × (used t ≡ false))

pub free_slot_lem : (ts : List Task) → Found ts
unfolding free_slot count
free_slot_lem [] = inl (refl, refl)
free_slot_lem (t ∷ ts) =
    let rest : Found ts = free_slot_lem ts in
    elim (Bool-cases (used t)) [
      | inl u ↦ elim rest [
        | inl (n, c) ↦ inl (rw (slot_in t ts u) n, rw (count_in used t ts u) (ap (λ k. suc k) c))
        | inr (t', e, f) ↦ inr (t', rw (slot_in t ts u) e, f)
      ]
      | inr u ↦ inr (t, rw (slot_out t ts u) refl, u)
    ]

pub count-set :
    (k : ℕ) (ts : List Task) (t t' : Task)
    → get_elem? ts k ≡ some t
    → used t ≡ false
    → used t' ≡ true
    → count used (set ts k t') ≡ suc (count used ts)
unfolding count
count-set k [] t t' e f u = absurd cc
count-set zero (x ∷ ts) t t' e f u = let q : used x ≡ false = cc in rw (q, u) refl
count-set (suc k) (x ∷ ts) t t' e f u =
    let rest : count used (set ts k t') ≡ suc (count used ts) = count-set k ts t t' e f u in
    elim (Bool-cases (used x)) [ inl h ↦ rw (h, rest) refl | inr h ↦ rw (h, rest) refl ]

live_pid :
    (pid : ℤ) (s : ℕ) → ltb_ℤ pid (pos 0) ≡ false → used (record { pid = pid; state = s }) ≡ true
live_pid (pos n) s e = ground arith
live_pid (negsuc n) s e = ground (arith, e)

-- What adding a task comes to behind its guard: without a free slot a write outside the pool, else
-- the end of the process where `fork` fails, or one more used slot.
pub data IsForked (pid : ℤ) (p : Pool) : Call → Type 0 where
  full : count used p.tasks ≡ max_working → IsForked pid p outside
  failed : ltb_ℤ pid (pos 0) ≡ true → IsForked pid p exits
  forked :
      (p' : Pool)
      → IsCounted p'
      → p'.idle ≡ suc p.idle
      → p'.busy ≡ p.busy
      → count used p'.tasks ≡ suc (count used p.tasks)
      → IsForked pid p (returns (pos 0) p')

forked_at :
    (pid : ℤ) (p : Pool) (t : Task)
    → IsCounted p
    → get_elem? p.tasks (free_slot p.tasks) ≡ some t
    → used t ≡ false
    → ltb_ℤ pid (pos 0) ≡ false
    → IsForked pid p (
        returns (pos 0) (record p {
          tasks = set p.tasks (free_slot p.tasks) (record { pid = pid; state = state_idle });
          idle = suc p.idle;
        }))
forked_at pid p t c e u l =
    let t' : Task = record { pid = pid; state = state_idle } in
    let ts : List Task = set p.tasks (free_slot p.tasks) t' in
    let k : count used ts ≡ suc (count used p.tasks) =
      count-set (free_slot p.tasks) p.tasks t t' e u (live_pid pid state_idle l) in
    let z : length ts ≡ length p.tasks = length-set _ _ _ in
    forked (record p { tasks = ts; idle = suc p.idle })
      (record { size = z ∙ c.size; total = omega (arith, k, c.total) }) refl refl k

pub fork_into_lem : (pid : ℤ) (p : Pool) → IsCounted p → IsForked pid p (fork_into pid p)
unfolding fork_into
fork_into_lem pid p c = elim (free_slot_lem p.tasks) [
  | inl (n, k) ↦ rw (fork_into, n) (full (k ∙ c.size))
  | inr (t, e, u) ↦ elim (Bool-cases (ltb_ℤ pid (pos 0))) [
    | inl l ↦ rw (fork_into, e, l) (failed l)
    | inr l ↦ rw (fork_into, e, l) (forked_at pid p t c e u l)
  ]
]

-- What deleting from the slots comes to.
pub data IsDeleted (ts : List Task) : Option (ℤ × List Task) → Type 0 where
  no_idle : count is_idle ts ≡ 0 → IsDeleted ts none
  deleted :
      (k : ℤ) (ts' : List Task)
      → length ts' ≡ length ts
      → suc (count used ts') ≡ count used ts
      → count is_busy ts' ≡ count is_busy ts
      → IsDeleted ts (some (k, ts'))

cons_same :
    (q : Task → Bool) (t : Task) (xs ys : List Task)
    → count q xs ≡ count q ys
    → count q (t ∷ xs) ≡ count q (t ∷ ys)
unfolding count
cons_same q t xs ys e = rw e refl

cons_less :
    (q : Task → Bool) (t : Task) (xs ys : List Task)
    → suc (count q xs) ≡ count q ys
    → suc (count q (t ∷ xs)) ≡ count q (t ∷ ys)
cons_less q t xs ys e = elim (Bool-cases (q t)) [
  | inl h ↦ rw (count_in q t xs h, count_in q t ys h) (ap (λ k. suc k) e)
  | inr h ↦ rw (count_out q t xs h, count_out q t ys h) e
]

del_later :
    (t : Task) (ts : List Task) (r : Option (ℤ × List Task))
    → is_idle t ≡ false
    → IsDeleted ts r
    → IsDeleted (t ∷ ts) (elim r [ none ↦ none | some (k, ts') ↦ some (k, t ∷ ts') ])
del_later t ts r e (no_idle z) = no_idle (count_out is_idle t ts e ∙ z)
del_later t ts r e (deleted k ts' l u b) =
    deleted k (t ∷ ts') (ap (λ n. suc n) l) (cons_less used t ts' ts u)
      (cons_same is_busy t ts' ts b)

and_parts : (a b : Bool) → (a && b) ≡ true → (a ≡ true) × (b ≡ true)
and_parts true b e = (refl, e)
and_parts false b e = absurd cc

and_false : (a b : Bool) → b ≡ false → (a && b) ≡ false
and_false true b e = e
and_false false b e = refl

idle_parts : (t : Task) → is_idle t ≡ true → (used t ≡ true) × (is_busy t ≡ false)
idle_parts t e =
    let (u, z) = and_parts (used t) (t.state == state_idle) e in
    let o : (t.state == state_busy) ≡ false = ground (arith, z) in
    (u, and_false (used t) (t.state == state_busy) o)

del_here :
    (t : Task) (ts : List Task)
    → is_idle t ≡ true
    → IsDeleted (t ∷ ts) (some (t.pid, record t { pid = negsuc 0 } ∷ ts))
del_here t ts e =
    let (u, b) = idle_parts t e in
    deleted t.pid (record t { pid = negsuc 0 } ∷ ts) refl
      (ap (λ k. suc k) (count_out used (record t { pid = negsuc 0 }) ts refl)
        ∙ sym (count_in used t ts u))
      (count_out is_busy (record t { pid = negsuc 0 }) ts refl ∙ sym (count_out is_busy t ts b))

pub del_from_lem : (ts : List Task) → IsDeleted ts (del_from ts)
unfolding count del_from
del_from_lem [] = no_idle refl
del_from_lem (t ∷ ts) = elim (Bool-cases (is_idle t)) [
  | inl e ↦ rw e (del_here t ts e)
  | inr e ↦ rw e (del_later t ts (del_from ts) e (del_from_lem ts))
]

-- What the deleting function does on a pool whose counters count its slots.
pub record Deletes (p : Pool) (p' : Pool) : Type 0 where
  pub counted : IsCounted p'
  pub busy : count is_busy p'.tasks ≡ count is_busy p.tasks

Deletes-from :
    (p : Pool) (r : Option (ℤ × List Task))
    → IsCounted p
    → (p.idle == 0) ≡ false
    → IsDeleted p.tasks r
    → Deletes p ((deleted_at p r).2)
unfolding deleted_at
Deletes-from p r c n (no_idle z) = record { counted = c; busy = refl }
Deletes-from p r c n (deleted k ts' l u b) = record {
  counted = record { size = l ∙ c.size; total = ground (arith, c.total, n, u) };
  busy = b;
}

-- Deleting a task on a pool whose counters count the used slots keeps the counts and the number of
-- the busy tasks.
pub del_task_lem : (p : Pool) → IsCounted p → Deletes p ((del_task p).2)
unfolding del_task
del_task_lem p c = elim (Bool-cases (p.idle == 0)) [
  | inl e ↦ rw e (record { counted = c; busy = refl })
  | inr e ↦ rw e (Deletes-from p (del_from p.tasks) c e (del_from_lem p.tasks))
]
