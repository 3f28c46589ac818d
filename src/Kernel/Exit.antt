-- ===== src/Kernel/Exit.antt =====
-- How a task ends and how its father learns of it: release, kill_session, tell_father, sys_waitpid
-- and the part of do_exit that works on the task table, of linux-0.11/kernel/exit.c. A task is known
-- by its slot; slot `cur` is the current task's. The frees of memory and the closes in do_exit are
-- the calls of free_page_tables, sys_close and iput, which touch no task.
pub mod Wait
pub mod Orphans
mod Tests
use mathlib.Core.Option
use linux_0_11_lab.Base.{
  Bool, Option, bit_and, bit_or, false, get_or, if◌then◌else◌, leb, ltb, map, none, not, set, some,
  suc, true, zero, ℕ, ◌%◌, ◌&&◌, ◌*◌, ◌+◌, ◌-◌, ◌==◌, ◌^◌, ◌||◌,
}
use linux_0_11_lab.Base.Bits.{complement}
use linux_0_11_lab.Base.Int.{eqb_ℤ, ltb_ℤ, negsuc, pos, ℤ, ◌-ℤ◌}
use linux_0_11_lab.Kernel.Kill.{send_sig}
use linux_0_11_lab.Kernel.Task.{Task, TaskState, Tasks, echild, init_task, nr_tasks}

abbrev pub sigchld : ℕ
sigchld = 17

abbrev pub sighup : ℕ
sighup = 1

-- `signal |= 1 << (sig - 1)`
abbrev pub raise : ℕ → Task → Task
raise sig t = record t { signal = bit_or t.signal (2 ^ (sig - 1)) }

-- `none` is the panic on a task that is in no slot.
pub release : ℕ → Tasks → Option Tasks
release slot ts =
    if leb 1 slot && ltb slot nr_tasks
    then elim (get_or ts slot none) [ none ↦ none | some _ ↦ some (set ts slot none) ]
    else none

pub hang_up : ℤ → Option Task → Option Task
hang_up session none = none
hang_up session (some p) = if eqb_ℤ p.session session then some (raise sighup p) else some p

-- The slots from `n` down to 1.
pub kill_session : ℕ → ℤ → Tasks → Tasks
kill_session zero session ts = ts
kill_session (suc i) session ts =
    kill_session i session (set ts (suc i) (hang_up session (get_or ts (suc i) none)))

abbrev pub has_pid : ℤ → Option Task → Bool
has_pid pid none = false
has_pid pid (some p) = eqb_ℤ p.pid pid

-- The loop of tell_father over `n` slots from `i` on; `none` if there is no father.
pub find_father : ℕ → ℕ → ℤ → Tasks → Option ℕ
find_father zero i pid ts = none
find_father (suc n) i pid ts =
    let rest = find_father n (i + 1) pid ts in
    if has_pid pid (get_or ts i none) then some i else rest

-- Without a father the current task releases itself.
pub tell_father : ℤ → ℕ → Tasks → Option Tasks
tell_father father_pid cur ts =
    if eqb_ℤ father_pid (pos 0)
    then release cur ts
    else elim (find_father nr_tasks 0 father_pid ts) [
      | none ↦ release cur ts
      | some i ↦ some (set ts i (Option.map (raise sigchld) (get_or ts i none)))
    ]

abbrev pub is_zombie : TaskState → Bool
is_zombie TaskState.zombie = true
is_zombie _ = false

abbrev pub has_father : ℤ → Option Task → Bool
has_father pid none = false
has_father pid (some p) = eqb_ℤ p.father pid

-- A child of the current task becomes task 1's, which is told if the child has ended.
pub adopt : ℤ → ℕ → Tasks → Tasks
adopt pid i ts = elim (get_or ts i none) [
  | none ↦ ts
  | some p ↦
      let ts' = set ts i (some (record p { father = pos 1 })) in
      if not (eqb_ℤ p.father pid)
      then ts
      else if is_zombie p.state
      then set ts' 1 (send_sig (pos sigchld) (get_or ts' 1 none) true p).1
      else ts'
]

pub orphans : ℕ → ℕ → ℤ → Tasks → Tasks
orphans zero i pid ts = ts
orphans (suc n) i pid ts = orphans n (i + 1) pid (adopt pid i ts)

-- The changes that do_exit makes to the task table before schedule().
pub do_exit : ℕ → ℕ → Task → Tasks → Option Tasks
do_exit code cur me ts =
    let ts1 = orphans nr_tasks 0 me.pid ts in
    let ts2 : Tasks = (if me.leader then kill_session (nr_tasks - 1) me.session ts1 else ts1) in
    let ended : Task → Task = λ t. record t {
      state = TaskState.zombie;
      exit_code = code;
      pwd = none;
      root = none;
      executable = none;
      filp = map (λ f. none) t.filp;
    } in
    let father : ℤ = elim (get_or ts2 cur none) [ none ↦ me.father | some t ↦ t.father ] in
    tell_father father cur (set ts2 cur (Option.map ended (get_or ts2 cur none)))

pub sys_exit : ℕ → ℕ → Task → Tasks → Option Tasks
sys_exit error_code cur me ts = do_exit (error_code % 256 * 256) cur me ts

-- What the loop of sys_waitpid sees in a slot: nothing that counts, a child that runs, one that is
-- stopped, and one that has ended.
pub data Child : Type 0 where
  no_child : Child
  busy : Child
  halted : Child
  dead : Child

abbrev pub matches : ℤ → Task → Task → Bool
matches pid me p =
    if ltb_ℤ (pos 0) pid
    then eqb_ℤ p.pid pid
    else if eqb_ℤ pid (pos 0)
    then eqb_ℤ p.pgrp me.pgrp
    else if eqb_ℤ pid (negsuc 0)
    then true
    else eqb_ℤ p.pgrp (pos 0 -ℤ pid)

-- `switch ((*p)->state)`; `untraced` is `options & WUNTRACED`.
pub state_child : Bool → TaskState → Child
state_child untraced TaskState.stopped = if untraced then halted else no_child
state_child untraced TaskState.zombie = dead
state_child untraced TaskState.running = busy
state_child untraced TaskState.interruptible = busy
state_child untraced TaskState.uninterruptible = busy

pub classify : ℤ → Bool → ℕ → Task → ℕ → Option Task → Child
classify pid untraced cur me i none = no_child
classify pid untraced cur me i (some p) =
    if i == cur || not (eqb_ℤ p.father me.pid) || not (matches pid me p)
    then no_child
    else state_child untraced p.state

abbrev pub is_busy : Child → Bool
is_busy busy = true
is_busy _ = false

abbrev pub is_ready : Child → Bool
is_ready dead = true
is_ready halted = true
is_ready _ = false

-- How the loop ends: at a child, or at the end with `flag`.
pub data Scan : Type 0 where
  found : ℕ → Child → Scan
  scanned : Bool → Scan

-- The slots from `n` down to 1, by what they hold.
pub wait_loop : (ℕ → Child) → ℕ → Bool → Scan
wait_loop see zero flag = scanned flag
wait_loop see (suc i) flag =
    let rest = wait_loop see i (flag || is_busy (see (suc i))) in
    if is_ready (see (suc i)) then found (suc i) (see (suc i)) else rest

-- sys_waitpid returns a value, the status if it stores one, and the tasks; or it sleeps.
pub data Waited : Type 0 where
  returns : ℤ → Option ℕ → Tasks → Waited
  sleeps : Tasks → Waited

abbrev pub task_at : Tasks → ℕ → Task
task_at ts i = elim (get_or ts i none) [ none ↦ init_task | some t ↦ t ]

-- The child's times go to the current task, and its slot is released.
abbrev pub reap : ℕ → ℕ → Task → Task → Tasks → Tasks
reap cur i p me ts =
    set
      (set ts cur (some (record me { cutime = me.cutime + p.utime; cstime = me.cstime + p.stime })))
      i none

-- What follows the loop of sys_waitpid.
pub settle : Bool → ℕ → Task → Tasks → Scan → Waited
settle nohang cur me ts s = elim s [
  | found i c ↦ elim c [
    | dead ↦
        returns (task_at ts i).pid (some (task_at ts i).exit_code) (reap cur i (task_at ts i) me ts)
    | _ ↦ returns (task_at ts i).pid (some 0x7f) ts
  ]
  | scanned flag ↦
      if not flag
      then returns echild none ts
      else if nohang
      then returns (pos 0) none ts
      else sleeps (set ts cur (some (record me { state = TaskState.interruptible })))
]

pub sys_waitpid : ℤ → Bool → Bool → ℕ → Task → Tasks → Waited
sys_waitpid pid untraced nohang cur me ts =
    settle nohang cur me ts
      (wait_loop (λ i. classify pid untraced cur me i (get_or ts i none)) (nr_tasks - 1) false)

-- After schedule(): whether sys_waitpid looks again, with SIGCHLD cleared, or returns -EINTR.
pub wait_again : Task → Bool × Task
wait_again me =
    let signal = bit_and me.signal (complement 32 (2 ^ (sigchld - 1))) in
    (signal == 0, record me { signal = signal })
