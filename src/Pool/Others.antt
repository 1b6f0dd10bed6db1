-- ===== src/Pool/Others.antt =====
-- socket/processPool/others.c.
use lhq_linux_c.Base.{
  ℕ, ◌+◌, Bool, true, false, not, Option, List, [], ◌∷◌, leb, ◌==◌, if◌then◌else◌, ℤ, negsuc,
}
use lhq_linux_c.Pool
use lhq_linux_c.Pool.{
  Task, Pool, used, Call, outside, exits, returns, fork_into, free_slot, control, main_round,
  start_from, lowest_idle, max_working, Job, job_exits, job_next, mark, pid_at, state_idle,
  state_busy, empty_pool,
}

-- The guard is `>=`.
unfoldable pub add_one_server : ℤ → Pool → Call
add_one_server pid p =
    if leb max_working (p.idle + p.busy) then returns (negsuc 0) p else fork_into pid p

unfoldable pub del_one_server : Pool → ℤ × Option ℤ × Pool
unfolding Pool.del_task
del_one_server p = Pool.del_task p

unfoldable pub scan_pool : (ℤ → Bool) → Pool → Option Pool
unfolding Pool.scan_pool
scan_pool alive p = Pool.scan_pool alive p

-- The slots as `main` prints them, then a newline.
unfoldable pub print_slots : List Task → List ℕ
print_slots [] = 10 ∷ []
print_slots (t ∷ ts) =
    let rest = print_slots ts in
    if not (used t)
    then b' ' ∷ rest
    else (if t.state == state_idle
        then b'.' ∷ rest
        else (if t.state == state_busy then b'X' ∷ rest else rest))

-- A round of `server_job` for what `accept` answers, a descriptor or an error that is EINTR or
-- EAGAIN, or another; `sends` is whether `send` succeeds. The signals go to the parent.
pub data Accepted : Type 0 where
  accepted : Accepted
  try_again : Accepted
  accept_fails : Accepted

unfoldable pub server_job : Accepted → Bool → ℤ → ℕ → List Task → Job
server_job accepted true ppid n ts =
    job_next (ppid ∷ ppid ∷ []) (mark n state_busy (mark n state_idle ts))
server_job accepted false ppid n ts =
    job_exits (ppid ∷ ppid ∷ []) (mark n state_busy (mark n state_idle ts))
server_job try_again sends ppid n ts = job_next (ppid ∷ []) (mark n state_idle ts)
server_job accept_fails sends ppid n ts = job_exits (ppid ∷ []) (mark n state_idle ts)

-- One round of the loop of `main` behind `sigsuspend`.
unfoldable pub round : (ℤ → Bool) → (ℕ → ℤ) → Pool → Call
round alive forks p = main_round add_one_server alive forks p

-- The pool before the loop of `main`.
unfoldable pub start : (ℕ → ℤ) → Call
start forks = start_from add_one_server forks lowest_idle 0 empty_pool
