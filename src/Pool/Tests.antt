-- ===== src/Pool/Tests.antt =====
-- Tests of the pools, and their theorems at concrete inputs.
use lhq_linux_c.Base.{
  ℕ, ◌+◌, ◌≤◌, ◌<◌, ◌≡◌, refl, sym, ◌⊎◌, Bool, true, some, replicate, ℤ, pos, negsuc,
}
use lhq_linux_c.Pool.{
  Task, Pool, used, Call, outside, exits, returns, del_task, scan_pool, max_working, lowest_idle,
  empty_pool, grow_from,
}
use lhq_linux_c.Pool.Slots.{count, is_idle, is_busy, IsCounted, IsForked, Deletes, del_task_lem}
use lhq_linux_c.Pool.Scan.{is_dead, scan_pool_lem}
use lhq_linux_c.Pool.Control.{IsInside}
use lhq_linux_c.Pool.Bounds.{add_one_server_lem, others_round-IsInside}
use lhq_linux_c.Pool.Server
use lhq_linux_c.Pool.Others

-- Twenty busy tasks, and what scan_pool makes of them.
abbrev busy_task : Task
busy_task = record { pid = pos 30; state = 1 }

abbrev busy_pool : Pool
busy_pool = record { tasks = replicate 20 busy_task; idle = 0; busy = 20 }

abbrev living : ℤ → Bool
living pid = true

abbrev forks : ℕ → ℤ
forks i = pos (100 + i)

busy_scan : scan_pool living busy_pool ≡ some busy_pool
unfolding scan_pool lhq_linux_c.Pool.scan_from lhq_linux_c.Pool.scan_slot
busy_scan = refl

busy_count : count used busy_pool.tasks ≡ max_working
unfolding count
busy_count = refl

others_round-IsInside_example : IsInside (Others.round living forks busy_pool)
others_round-IsInside_example = others_round-IsInside living forks busy_pool refl

busy_pool-IsCounted : IsCounted busy_pool
busy_pool-IsCounted = record { size = refl; total = sym busy_count }

add_one_server_test :
    ((max_working ≤ count used busy_pool.tasks)
      × (Others.add_one_server (pos 7) busy_pool ≡ returns (negsuc 0) busy_pool))
    ⊎ ((count used busy_pool.tasks < max_working)
        × IsForked (pos 7) busy_pool (Others.add_one_server (pos 7) busy_pool))
add_one_server_test = add_one_server_lem (pos 7) busy_pool busy_pool-IsCounted

del_task_test : Deletes busy_pool ((del_task busy_pool).2)
del_task_test = del_task_lem busy_pool busy_pool-IsCounted

scan_pool_example :
    IsCounted busy_pool
    × (busy_pool.idle ≡ count is_idle busy_pool.tasks)
    × (busy_pool.busy ≡ count is_busy busy_pool.tasks)
    × (count (is_dead living) busy_pool.tasks ≡ 0)
scan_pool_example = scan_pool_lem living busy_pool busy_pool refl busy_scan

-- The bound of the growing loop falls while the loop counts up: from no idle task it makes three.
abbrev idle_of : Call → ℕ
idle_of outside = 0
idle_of exits = 0
idle_of (returns r p) = p.idle

grows_to_three : idle_of (grow_from Others.add_one_server forks lowest_idle 0 empty_pool) ≡ 3
unfolding grow_from Others.add_one_server empty_pool lhq_linux_c.Pool.fork_into
    lhq_linux_c.Pool.free_slot
grows_to_three = refl
