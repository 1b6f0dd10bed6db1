-- ===== src/TokenBucket/Shutdown.antt =====
-- The clean-up of mytbf.c, `module_unload`, and what exit() makes of it.
use lhq_linux_c.Base.{ℕ, suc, ◌≡◌, refl, none, some, pos}
use lhq_linux_c.Table.Invariant.{free_slots-table}
use lhq_linux_c.Table.Loops.{free_slots_dangling}
use lhq_linux_c.TokenBucket.{Bucket, Module, module_unload, run_atexit}
use lhq_linux_c.TokenBucket.Invariant.{IsValid}

-- One run of the clean-up frees every bucket, and none twice.
pub module_unload_lem :
    (m : Module) → IsValid m → module_unload m ≡ some (record m { heap = λ p. none })
unfolding module_unload
module_unload_lem m v = rw (free_slots-table v.table, module_unload)

unload_dangling :
    (m : Module) (p : ℕ) (b : Bucket)
    → IsValid m
    → m.heap p ≡ some b
    → module_unload (record m { heap = λ q. none }) ≡ none
unfolding module_unload
unload_dangling m p b v e = rw (
  free_slots_dangling {A = Bucket} m.job (λ q. none) p b.pos (v.table.live p b e) refl,
  module_unload,
)

-- A second run frees again what the first has freed: with a bucket in the table, an exit at which
-- the clean-up is registered more than once is a fault.
pub double_free :
    (m : Module) (n p : ℕ) (b : Bucket)
    → IsValid m
    → m.heap p ≡ some b
    → run_atexit (suc (suc n)) m ≡ none
unfolding run_atexit
double_free m n p b v e =
    let again : module_unload (record m { heap = λ q. none }) ≡ none = unload_dangling m p b v e in
    rw (module_unload_lem m v, run_atexit, again)
