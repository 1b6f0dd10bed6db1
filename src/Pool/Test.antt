-- ===== src/Pool/Test.antt =====
-- socket/processPool/test.c.
use lhq_linux_c.Base.{
  ℕ, ◌+◌, Bool, ◌&&◌, ◌||◌, not, Option, List, [], ◌∷◌, ◌++◌, ltb, if◌then◌else◌, ℤ, pos, negsuc,
  ltb_ℤ, eqb_ℤ,
}
use lhq_linux_c.Pool
use lhq_linux_c.Pool.{
  Task, Pool, used, Call, outside, exits, returns, fork_into, free_slot, control, main_round,
  start_from, lowest_idle, max_working, Job, job_exits, job_next, mark, pid_at, state_idle,
  state_busy, empty_pool,
}

-- The guard is `>`.
unfoldable pub add_single_task : ℤ → Pool → Call
add_single_task pid p =
    if ltb max_working (p.idle + p.busy) then returns (negsuc 0) p else fork_into pid p

unfoldable pub del_single_task : Pool → ℤ × Option ℤ × Pool
unfolding Pool.del_task
del_single_task p = Pool.del_task p

unfoldable pub scan_pool : (ℤ → Bool) → Pool → Option Pool
unfolding Pool.scan_pool
scan_pool alive p = Pool.scan_pool alive p

unfoldable pub scan_pool2 : (ℤ → Bool) → Pool → Option Pool
unfolding Pool.scan_pool
scan_pool2 alive p = Pool.scan_pool alive p

unfoldable pub print_pool : Pool → List ℕ
unfolding Pool.print_from
print_pool p = Pool.print_from p.tasks ++ 10 ∷ []

-- EINTR and EAGAIN.
abbrev pub eintr : ℤ
eintr = pos 4

abbrev pub eagain : ℤ
eagain = pos 11

-- A round of `server_job` for what `accept` answers; the signals go to the parent `ppid`.
unfoldable pub server_job : ℤ → ℤ → ℕ → List Task → Job
server_job newfd ppid n ts =
    let idle = mark n state_idle ts in
    if ltb_ℤ newfd (pos 0) && (not (eqb_ℤ newfd eintr) || not (eqb_ℤ newfd eagain))
    then job_exits (ppid ∷ []) idle
    else job_next (ppid ∷ ppid ∷ []) (mark n state_busy idle)

-- One round of the loop of `main` behind `sigsuspend`.
unfoldable pub round : (ℤ → Bool) → (ℕ → ℤ) → Pool → Call
round alive forks p = main_round add_single_task alive forks p

-- The pool before the loop of `main`.
unfoldable pub start : (ℕ → ℤ) → Call
start forks = start_from add_single_task forks lowest_idle 0 empty_pool
