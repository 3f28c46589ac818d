-- ===== src/Kernel/Fork.antt =====
-- kernel/fork.c of linux-0.11: find_empty_process. `last_pid` is a positive `long`, and the
-- increment past 2 ^ 31 - 1 gives 1. The search for a number takes fuel.
pub mod Pigeonhole
pub mod Unused
pub mod Memory
mod Tests
use mathlib.Core.Option
use linux_0_11_lab.Base.{
  Bool, Option, [], false, if◌then◌else◌, none, some, suc, zero, ℕ, ◌+◌, ◌==◌, ◌^◌, ◌||◌, ◌∷◌,
}
use linux_0_11_lab.Base.Int.{eqb_ℤ, pos, ℤ}
use linux_0_11_lab.Kernel.Task.{Tasks, eagain}

pub next_pid : ℕ → ℕ
next_pid p = if p + 1 == 2 ^ 31 then 1 else p + 1

pub pid_used : ℕ → Tasks → Bool
pid_used p [] = false
pid_used p (none ∷ ts) = pid_used p ts
pid_used p (some t ∷ ts) = eqb_ℤ t.pid (pos p) || pid_used p ts

-- The `repeat` loop: the new `last_pid`.
pub find_pid : ℕ → ℕ → Tasks → Option ℕ
find_pid zero last ts = none
find_pid (suc fuel) last ts =
    let rest = find_pid fuel (next_pid last) ts in
    if pid_used (next_pid last) ts then rest else some (next_pid last)

-- The first empty slot of the list, whose first slot has number `i`.
pub empty_slot : ℕ → Tasks → Option ℕ
empty_slot i [] = none
empty_slot i (none ∷ ts) = some i
empty_slot i (some t ∷ ts) = empty_slot (i + 1) ts

abbrev rest_of : Tasks → Tasks
rest_of [] = []
rest_of (first ∷ ts) = ts

-- The slot or EAGAIN, and the new `last_pid`.
pub find_empty_process : ℕ → ℕ → Tasks → Option (ℤ × ℕ)
find_empty_process fuel last ts =
    Option.map (λ p. (elim (empty_slot 1 (rest_of ts)) [ none ↦ eagain | some i ↦ pos i ], p))
      (find_pid fuel last ts)
