-- ===== src/Kernel/Kill/Tests.antt =====
-- The theorems on sys_kill at a table with one user task.
use linux_0_11_lab.Base.{arith, get_or, none, refl, replicate, some, ◌∷◌, ◌≢◌}
use linux_0_11_lab.Base.Int.{negsuc, pos}
use linux_0_11_lab.Kernel.Kill.{sys_kill}
use linux_0_11_lab.Kernel.Kill.Slots.{SlotAfter, sys_kill_all_fails, sys_kill_slots}
use linux_0_11_lab.Kernel.Task.{Task, Tasks, init_task}

abbrev me : Task
me = record init_task { pid = pos 7; euid = 5 }

abbrev child : Task
child = record init_task { pid = pos 8; euid = 5 }

abbrev table : Tasks
table = some init_task ∷ some child ∷ replicate 62 none

sys_kill_slots_example :
    SlotAfter
      (pos 8)
      (pos 15)
      me
      (some child)
      (get_or (sys_kill (pos 8) (pos 15) me table).1 1 none)
sys_kill_slots_example = sys_kill_slots (pos 8) (pos 15) me table 1 refl (omega arith) (omega arith)

sys_kill_all_fails_example : (sys_kill (negsuc 0) (pos 15) me table).0 ≢ pos 0
sys_kill_all_fails_example = sys_kill_all_fails (pos 15) me table 2 (omega arith) (omega arith) refl
