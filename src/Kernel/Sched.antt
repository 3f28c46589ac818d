-- ===== src/Kernel/Sched.antt =====
-- schedule() of linux-0.11/kernel/sched.c, over the task table. The order of the first and the last
-- loop does not matter, since each round changes its own task only; they are a `map` over
-- task[1..63]. The `while (1)` takes fuel.
pub mod Signals
pub mod Pick
pub mod Choice
pub mod Bounds
mod Tests
use mathlib.Core.Option
use linux_0_11_lab.Base.{
  Option, [], bit_and, bit_or, get_or, if◌then◌else◌, ltb, map, none, not, some, suc, zero, ℕ, ◌&&◌,
  ◌-◌, ◌==◌, ◌∷◌,
}
use linux_0_11_lab.Base.Bits.{complement}
use linux_0_11_lab.Base.Int.{eqb_ℤ, half, ltb_ℤ, negsuc, pos, wrap32, ℤ, ◌+ℤ◌}
use linux_0_11_lab.Kernel.Task.{
  Task, TaskState, Tasks, is_interruptible, is_running, nr_tasks, sig_bit, sigalrm, sigkill,
  sigstop,
}

-- `_BLOCKABLE`
abbrev pub blockable : ℕ
unfolding complement
blockable = complement 32 (bit_or (sig_bit sigkill) (sig_bit sigstop))

-- An alarm that has gone off becomes a pending SIGALRM.
pub ring_alarm : ℕ → Task → Task
ring_alarm jiffies t =
    if not (t.alarm == 0) && ltb t.alarm jiffies
    then record t { signal = bit_or t.signal (sig_bit sigalrm); alarm = 0 }
    else t

-- The word that the wake-up test reads.
pub pending : Task → ℕ
pending t = bit_and t.signal (bit_and blockable (complement 32 t.blocked))

pub wake_on_signal : Task → Task
wake_on_signal t =
    if not (pending t == 0) && is_interruptible t.state
    then record t { state = TaskState.running }
    else t

pub check_task : ℕ → Task → Task
check_task jiffies t = wake_on_signal (ring_alarm jiffies t)

-- The loops skip task[0].
abbrev pub map_tasks : (Task → Task) → Tasks → Tasks
map_tasks f [] = []
map_tasks f (first ∷ ts) = first ∷ map (Option.map f) ts

-- One look of the `while (--i)` loop at task[i].
pub consider : Option Task → ℕ → ℤ × ℕ → ℤ × ℕ
consider none i (c, next) = (c, next)
consider (some t) i (c, next) =
    if is_running t.state && ltb_ℤ c t.counter then (t.counter, i) else (c, next)

-- From task[i] down to task[1].
pub pick : Tasks → ℕ → ℤ × ℕ → ℤ × ℕ
pick ts zero best = best
pick ts (suc i) best = pick ts i (consider (get_or ts (suc i) none) (suc i) best)

-- The sum of two `long`s.
pub recharge : Task → Task
recharge t = record t { counter = wrap32 (half t.counter +ℤ t.priority) }

pub sched_loop : ℕ → Tasks → Option (ℕ × Tasks)
sched_loop zero ts = none
sched_loop (suc fuel) ts =
    let (c, next) = pick ts (nr_tasks - 1) (negsuc 0, 0) in
    let rest = sched_loop fuel (map_tasks recharge ts) in
    if eqb_ℤ c (pos 0) then rest else some (next, ts)

-- The task to switch to, and the table; `switch_to` makes that task the current one.
pub schedule : ℕ → ℕ → Tasks → Option (ℕ × Tasks)
schedule fuel jiffies ts = sched_loop fuel (map_tasks (check_task jiffies) ts)
