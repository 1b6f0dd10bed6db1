-- ===== src/Pool/Bounds.antt =====
-- socket/processPool: the guards of the functions that add a task.
use Prim.{tt}
use lhq_linux_c.Base.{
  ℕ, ◌+◌, ◌≤◌, ◌<◌, ◌≡◌, refl, ◌⊎◌, inl, inr, Bool, false, arith, leb, Bool-cases, length, ℤ,
  negsuc,
}
use lhq_linux_c.Pool.{Pool, used, Call, outside, exits, returns, fork_into, max_working}
use lhq_linux_c.Pool.Slots.{count, IsCounted, IsForked, full, failed, forked, fork_into_lem}
use lhq_linux_c.Pool.Control.{IsInside, main_round_keeps}
use lhq_linux_c.Pool.Server
use lhq_linux_c.Pool.Others

IsInside-of :
    (pid : ℤ) (p : Pool) (r : Call)
    → p.idle + p.busy ≡ count used p.tasks
    → leb max_working (p.idle + p.busy) ≡ false
    → IsForked pid p r
    → IsInside r
unfolding IsInside
IsInside-of pid p outside t g (full k) = ground (arith, t, g, k)
IsInside-of pid p exits t g (failed l) = tt
IsInside-of pid p (returns r z) t g (forked q c i b k) = c

add_keeps : (pid : ℤ) (p : Pool) → IsCounted p → IsInside (Others.add_one_server pid p)
unfolding Others.add_one_server IsInside
add_keeps pid p c = elim (Bool-cases (leb max_working (p.idle + p.busy))) [
  | inl g ↦ rw g c
  | inr g ↦ rw g (IsInside-of pid p (fork_into pid p) c.total g (fork_into_lem pid p c))
]

-- add_one_server of others.c refuses a pool with all slots used, and otherwise adds one task or,
-- where fork fails, ends the process; it never writes outside the pool.
pub add_one_server_lem :
    (pid : ℤ) (p : Pool)
    → IsCounted p
    → ((max_working ≤ count used p.tasks) × (Others.add_one_server pid p ≡ returns (negsuc 0) p))
      ⊎ ((count used p.tasks < max_working) × IsForked pid p (Others.add_one_server pid p))
unfolding Others.add_one_server
add_one_server_lem pid p c = elim (Bool-cases (leb max_working (p.idle + p.busy))) [
  | inl g ↦ inl (ground (arith, g, c.total), rw g refl)
  | inr g ↦ inr (ground (arith, g, c.total), rw g (fork_into_lem pid p c))
]

-- A round of the loop of main in others.c, on a table of its length, writes nothing outside the
-- pool, and where it does not end the process its counters count the used slots.
pub others_round-IsInside :
    (alive : ℤ → Bool) (forks : ℕ → ℤ) (p : Pool)
    → length p.tasks ≡ max_working
    → IsInside (Others.round alive forks p)
unfolding Others.round
others_round-IsInside alive forks p l =
    main_round_keeps Others.add_one_server add_keeps alive forks p l
