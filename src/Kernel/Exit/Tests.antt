-- ===== src/Kernel/Exit/Tests.antt =====
-- A father in slot 1 with a child in slot 3 that has ended or is stopped.
use linux_0_11_lab.Base.{
  [], false, get_or, if◌then◌else◌, leb, ltb, none, refl, some, suc, true, zero, ℕ, ◌&&◌, ◌∷◌, ◌≡◌,
}
use linux_0_11_lab.Base.Int.{eqb_ℤ, negsuc, pos}
use linux_0_11_lab.Kernel.Exit.{has_father, orphans, returns, sys_waitpid}
use linux_0_11_lab.Kernel.Exit.Orphans.{father_of, orphans_lem}
use linux_0_11_lab.Kernel.Exit.Wait.{IsChild, sys_waitpid_stopped}
use linux_0_11_lab.Kernel.Task.{Task, TaskState, Tasks, echild, init_task}

abbrev father_task : Task
father_task = record init_task { pid = pos 5 }

abbrev child_task : TaskState → Task
child_task s = record init_task { pid = pos 9; father = pos 5; state = s; exit_code = 256 }

abbrev family : TaskState → Tasks
family s = some init_task ∷ some father_task ∷ none ∷ some (child_task s) ∷ []

only_stopped :
    (j : ℕ) (p : Task)
    → IsChild (negsuc 0) 1 father_task (family TaskState.stopped) j p
    → p.state ≡ TaskState.stopped
only_stopped j p c = at_slot j c.here c.mine
  where
    at_slot :
        (i : ℕ)
        → get_or (family TaskState.stopped) i none ≡ some p
        → eqb_ℤ p.father (pos 5) ≡ true
        → p.state ≡ TaskState.stopped
    at_slot zero e m = let z : init_task ≡ p = cc e in absurd (let w = rw (← z) at m in cc w)
    at_slot (suc zero) e m =
        let z : father_task ≡ p = cc e in absurd (let w = rw (← z) at m in cc w)
    at_slot (suc (suc zero)) e m = absurd (cc e)
    at_slot (suc (suc (suc zero))) e m =
        let z : child_task TaskState.stopped ≡ p = cc e in rw (← z) refl
    at_slot (suc (suc (suc (suc i)))) e m = absurd (cc e)

sys_waitpid_stopped_example :
    sys_waitpid (negsuc 0) false false 1 father_task (family TaskState.stopped)
    ≡ returns echild none (family TaskState.stopped)
sys_waitpid_stopped_example =
    sys_waitpid_stopped (negsuc 0) false 1 father_task (family TaskState.stopped) only_stopped

orphans_lem_example : father_of (get_or (orphans 64 0 (pos 5) (family TaskState.zombie)) 3 none) ≡ (
    if leb 0 3 && ltb 3 64 && has_father (pos 5) (get_or (family TaskState.zombie) 3 none)
    then some (pos 1)
    else father_of (get_or (family TaskState.zombie) 3 none))
orphans_lem_example = orphans_lem (pos 5) 64 0 3 (family TaskState.zombie)
