-- ===== src/Timers/Tests.antt =====
-- Runs of the timers on concrete tables.
use Prim.{tt}
use lhq_linux_c.Base.{
  ◌≡◌, refl, true, none, some, List, [], ◌∷◌, arith, update, replicate, pos, negsuc, ◌-ℤ◌,
  first_free,
}
use lhq_linux_c.Timers.Alarm.{
  Op, sets, alarm, run, start, set_timer, t_find_pos, check_timer, check_slot, count_down,
}
use lhq_linux_c.Timers.Alarm.Runs.{IntOps, run-refines}
use lhq_linux_c.Timers.Alarm.Deadlines.{spec}
use lhq_linux_c.Timers.Threads.{
  Tim, Module, fires, check_arr, check_from, destory_timer, tim_routine,
}
use lhq_linux_c.Timers.Threads.Freed.{fires-tim_routine}

-- Two timers of one and two seconds, one of none, and a negative one.
abbrev ops : List Op
ops =
    sets true (pos 2) 7 70
    ∷ sets true (pos 1) 8 80
    ∷ sets true (negsuc 0) 9 90
    ∷ alarm
    ∷ sets true (pos 0) 6 60
    ∷ alarm
    ∷ alarm
    ∷ []

ops-IntOps : IntOps ops
ops-IntOps = (ground arith, (ground arith, (ground arith, (ground arith, tt))))

run-refines_example : run ops start ≡ spec ops 0 (replicate 1024 none)
run-refines_example = run-refines ops ops-IntOps

-- Those calls, on a table of four slots.
calls_of_ops : run ops (replicate 4 none) ≡ ((8, 80) ∷ []) ∷ ((7, 70) ∷ (6, 60) ∷ []) ∷ [] ∷ []
unfolding run set_timer t_find_pos first_free check_timer check_slot count_down ◌-ℤ◌
calls_of_ops = refl

abbrev expired : Tim
expired = record { f = 7; time = pos 0; pos = pos 0; arg = 70 }

abbrev before : Module
before = record {
  arr = none ∷ some 5 ∷ [];
  heap = update (λ q. none) 5 (some expired);
  token = pos 1;
}

abbrev after : Module
after = record before { heap = update before.heap 5 none; token = pos 0 }

scan_frees : check_arr before ≡ fires ((7, 70) ∷ []) after
unfolding check_arr check_from destory_timer ◌-ℤ◌
scan_frees = refl

fires-tim_routine_example : tim_routine after ≡ none
fires-tim_routine_example = fires-tim_routine before after (7, 70) [] scan_frees
