-- ===== src/Kernel/Fork/Tests.antt =====
-- find_empty_process at a table with two tasks.
use linux_0_11_lab.Base.{
  [], arith, get_or, length, none, refl, some, ℕ, ◌+◌, ◌-◌, ◌<◌, ◌^◌, ◌∷◌, ◌≡◌, ◌≢◌, ◌⊎◌,
}
use linux_0_11_lab.Base.Int.{pos, ℤ}
use linux_0_11_lab.Kernel.Fork.{empty_slot, find_empty_process, find_pid, next_pid, pid_used}
use linux_0_11_lab.Kernel.Fork.Unused.{FullBelow, IsPid, find_empty_process_lem}
use linux_0_11_lab.Kernel.Task.{Task, Tasks, eagain, init_task}

abbrev second : Task
second = record init_task { pid = pos 1 }

abbrev others : Tasks
others = some second ∷ none ∷ []

-- The greatest number wraps round to 1, which is taken.
wraps : find_empty_process 65 (2 ^ 31 - 1) (some init_task ∷ others) ≡ some (pos 2, 2)
unfolding find_empty_process find_pid next_pid pid_used empty_slot
wraps = refl

find_empty_process_lem_example :
    (r : ℤ) × (p : ℕ) × (find_empty_process 65 (2 ^ 31 - 1) (some init_task ∷ others) ≡ some (r, p))
    × IsPid p
    × ((i : ℕ) (t : Task) → get_or (some init_task ∷ others) i none ≡ some t → t.pid ≢ pos p)
    × (((k : ℕ) × (r ≡ pos (1 + k))
          × (k < length others)
          × (get_or others k none ≡ none)
          × FullBelow k others)
        ⊎ ((r ≡ eagain) × FullBelow (length others) others))
find_empty_process_lem_example =
    find_empty_process_lem (2 ^ 31 - 1) (some init_task) others (omega arith) (omega arith)
