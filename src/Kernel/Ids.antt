-- ===== src/Kernel/Ids.antt =====
-- The calls of linux-0.11/kernel/sys.c and kernel/sched.c that read or set the identity and the
-- limits of the calling task. A call returns its value and the new task. User and group ids are
-- words of 16 bits; the arguments are `int`s.
pub mod Privilege
mod Tests
use linux_0_11_lab.Base.{
  [], if◌then◌else◌, leb, ltb, none, not, some, true, ℕ, ◌%◌, ◌&&◌, ◌*◌, ◌+◌, ◌-◌, ◌/◌, ◌==◌, ◌^◌,
  ◌||◌, ◌∷◌,
}
use linux_0_11_lab.Base.Int.{eqb_ℤ, ltb_ℤ, negsuc, pos, pos_part, ℤ, ◌-ℤ◌}
use linux_0_11_lab.Kernel.Task.{Task, Tasks, eperm, esrch, hz, suser}

abbrev pub short : ℤ → ℕ
short a = pos_part a % 2 ^ 16

set_egid : ℤ → Task → ℤ × Task
set_egid egid t =
    if ltb_ℤ (pos 0) egid
    then (if eqb_ℤ (pos t.gid) egid || eqb_ℤ (pos t.egid) egid || eqb_ℤ (pos t.sgid) egid || suser t
        then (pos 0, record t { egid = short egid })
        else (eperm, t))
    else (pos 0, t)

pub sys_setregid : ℤ → ℤ → Task → ℤ × Task
unfolding set_egid
sys_setregid rgid egid t =
    if ltb_ℤ (pos 0) rgid
    then (if eqb_ℤ (pos t.gid) rgid || suser t
        then set_egid egid (record t { gid = short rgid })
        else (eperm, t))
    else set_egid egid t

pub sys_setgid : ℤ → Task → ℤ × Task
sys_setgid gid = sys_setregid gid gid

set_euid : ℕ → ℤ → Task → ℤ × Task
set_euid old_ruid euid t =
    if ltb_ℤ (pos 0) euid
    then (if eqb_ℤ (pos old_ruid) euid || eqb_ℤ (pos t.euid) euid || suser t
        then (pos 0, record t { euid = short euid })
        else (eperm, record t { uid = old_ruid }))
    else (pos 0, t)

pub sys_setreuid : ℤ → ℤ → Task → ℤ × Task
unfolding set_euid
sys_setreuid ruid euid t =
    if ltb_ℤ (pos 0) ruid
    then (if eqb_ℤ (pos t.euid) ruid || eqb_ℤ (pos t.uid) ruid || suser t
        then set_euid t.uid euid (record t { uid = short ruid })
        else (eperm, t))
    else set_euid t.uid euid t

pub sys_setuid : ℤ → Task → ℤ × Task
sys_setuid uid = sys_setreuid uid uid

pub sys_setsid : Task → ℤ × Task
sys_setsid t =
    if t.leader && not (suser t)
    then (eperm, t)
    else (t.pid, record t { leader = true; session = t.pid; pgrp = t.pid; tty = negsuc 0 })

-- `brk` moves only between the code and 16 KB below the stack. The difference is an unsigned word.
pub sys_brk : ℕ → Task → ℕ × Task
sys_brk end t =
    if leb t.end_code end && ltb end ((t.start_stack + 2 ^ 32 - 16384) % 2 ^ 32)
    then (end, record t { brk = end })
    else (t.brk, t)

pub sys_nice : ℤ → Task → ℤ × Task
sys_nice increment t =
    if ltb_ℤ (pos 0) (t.priority -ℤ increment)
    then (pos 0, record t { priority = t.priority -ℤ increment })
    else (pos 0, t)

-- The old alarm is returned in seconds; `/` rounds toward zero.
pub sys_alarm : ℕ → ℤ → Task → ℤ × Task
sys_alarm jiffies secs t =
    let left : ℤ =
      (if leb jiffies t.alarm
        then pos ((t.alarm - jiffies) / hz)
        else pos 0 -ℤ pos ((jiffies - t.alarm) / hz)) in
    let old = if t.alarm == 0 then pos 0 else left in
    (old, record t { alarm = if ltb_ℤ (pos 0) secs then jiffies + hz * pos_part secs else 0 })

-- The first task with the number is the one that is asked for.
pub set_pgrp : ℤ → ℤ → Task → Tasks → ℤ × Tasks
set_pgrp pid pgid me [] = (esrch, [])
set_pgrp pid pgid me (none ∷ ts) = let (r, us) = set_pgrp pid pgid me ts in (r, none ∷ us)
set_pgrp pid pgid me (some t ∷ ts) =
    let rest = set_pgrp pid pgid me ts in
    if eqb_ℤ t.pid pid
    then (if t.leader
        then (eperm, some t ∷ ts)
        else if eqb_ℤ t.session me.session
        then (pos 0, some (record t { pgrp = pgid }) ∷ ts)
        else (eperm, some t ∷ ts))
    else (rest.0, some t ∷ rest.1)

pub sys_setpgid : ℤ → ℤ → Task → Tasks → ℤ × Tasks
sys_setpgid pid pgid me ts =
    set_pgrp (if eqb_ℤ pid (pos 0) then me.pid else pid)
      (if eqb_ℤ pgid (pos 0) then me.pid else pgid) me ts
