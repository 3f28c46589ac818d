-- ===== src/Kernel/Sched/Tests.antt =====
-- The theorems on schedule() at concrete tables, and runs of it.
use mathlib.Core.Option
use linux_0_11_lab.Base.{[], arith, refl, some, some_injective, suc, zero, ℕ, ◌^◌, ◌∷◌, ◌≡◌, ◌⊎◌}
use mathlib.Core.Path.{subst}
use linux_0_11_lab.Base.Bits.{complement}
use linux_0_11_lab.Base.Int.{half, pos, wrap32, ◌+ℤ◌}
use linux_0_11_lab.Kernel.Sched.{
  blockable, check_task, consider, map_tasks, pending, pick, recharge, ring_alarm, sched_loop,
  schedule, wake_on_signal,
}
use linux_0_11_lab.Kernel.Sched.Bounds.{IsBounded, schedule-IsBounded}
use linux_0_11_lab.Kernel.Sched.Choice.{schedule_picks}
use linux_0_11_lab.Kernel.Sched.Pick.{AllTasks, IsReady, IsSmall, Picked}
use linux_0_11_lab.Kernel.Task.{Task, TaskState, Tasks, init_task}

abbrev spent : Task
spent = record init_task { counter = pos 0; pid = pos 1 }

-- An idle task, a task that has used up its slice, and a sleeper with an alarm.
abbrev table : Tasks
table =
    some init_task
    ∷ some spent
    ∷ some (record init_task {
      state = TaskState.interruptible;
      counter = pos 4;
      alarm = 90;
      pid = pos 2;
    })
    ∷ []

table-AllTasks :
    (P : Task → Type 0)
    → P spent
    → P (record init_task {
      state = TaskState.interruptible;
      counter = pos 4;
      alarm = 90;
      pid = pos 2;
    })
    → AllTasks P table
table-AllTasks P a b zero t e = subst P (some_injective e) a
table-AllTasks P a b (suc zero) t e = subst P (some_injective e) b
table-AllTasks P a b (suc (suc i)) t e = cc

table-IsReady : IsReady table
table-IsReady = table-AllTasks _ (omega arith) (omega arith)

table-IsSmall : IsSmall table
table-IsSmall = table-AllTasks _ (omega arith) (omega arith)

table-IsBounded : IsBounded 15 table
table-IsBounded = table-AllTasks _ (omega arith) (omega arith)

-- The alarm wakes the sleeper, which has the longest slice.
schedule_wakes : Option.map (λ (r : ℕ × Tasks). r.0) (schedule 2 100 table) ≡ some 2
unfolding schedule sched_loop check_task ring_alarm wake_on_signal pending pick consider recharge
    blockable
schedule_wakes = refl

-- Before the alarm the other task is picked, in the second round.
schedule_recharges : Option.map (λ (r : ℕ × Tasks). r.0) (schedule 2 50 table) ≡ some 1
unfolding schedule sched_loop check_task ring_alarm wake_on_signal pending pick consider recharge
    half ◌+ℤ◌ wrap32 complement
schedule_recharges = refl

schedule_picks_example :
    (next : ℕ) × (ts' : Tasks) × (schedule 2 100 table ≡ some (next, ts'))
    × Picked next ts'
    × IsReady ts'
    × IsSmall ts'
    × ((ts' ≡ map_tasks (check_task 100) table)
        ⊎ (ts' ≡ map_tasks recharge (map_tasks (check_task 100) table)))
schedule_picks_example = schedule_picks 0 100 table table-IsReady table-IsSmall

after_check : (next : ℕ) × (ts' : Tasks) × (schedule 2 100 table ≡ some (next, ts'))
after_check =
    let (n, ts, e, _, _, _, _) = schedule_picks 0 100 table table-IsReady table-IsSmall in
    (n, ts, e)

schedule-IsBounded_example : IsBounded 15 (after_check.1)
schedule-IsBounded_example =
    schedule-IsBounded 0 15 100 table table-IsReady table-IsBounded (after_check.2)

-- A sleeper that blocks SIGINT, with SIGTERM pending.
abbrev sleeper : Task
sleeper = record init_task { state = TaskState.interruptible; signal = 2 ^ 14; blocked = 2 }

abbrev killed : Task
killed = record init_task { state = TaskState.interruptible; signal = 2 ^ 8 }
