-- ===== src/Kernel/Kill.antt =====
-- send_sig() and sys_kill() of linux-0.11/kernel/exit.c, over the task table. `me` is the current
-- task; neither function changes what it reads of it.
pub mod Slots
mod Tests
use linux_0_11_lab.Base.{
  Bool, Option, bit_or, false, get_or, if◌then◌else◌, none, set, some, suc, true, zero, ℕ, ◌-◌,
  ◌==◌, ◌^◌, ◌||◌,
}
use linux_0_11_lab.Base.Int.{eqb_ℤ, ltb_ℤ, negsuc, pos, pos_part, ℤ, ◌-ℤ◌}
use linux_0_11_lab.Kernel.Task.{Task, Tasks, einval, eperm, nr_tasks, suser}

-- A signal number outside of 1..32 or a null pointer is EINVAL.
unfoldable pub send_sig : ℤ → Option Task → Bool → Task → ℤ × Option Task
send_sig sig none priv me = (einval, none)
send_sig sig (some p) priv me =
    if ltb_ℤ sig (pos 1) || ltb_ℤ (pos 32) sig
    then (einval, some p)
    else if priv || me.euid == p.euid || suser me
    then (pos 0, some (record p { signal = bit_or p.signal (2 ^ (pos_part sig - 1)) }))
    else (eperm, some p)

abbrev pub holds : (Task → Bool) → Option Task → Bool
holds f none = false
holds f (some p) = f p

-- Which slots of the table the loop for `pid` signals: the three that test `*p` skip empty ones,
-- and the one for -1 does not.
pub selects : ℤ → Task → Option Task → Bool
selects pid me o =
    if eqb_ℤ pid (pos 0)
    then holds (λ p. eqb_ℤ p.pgrp me.pid) o
    else if ltb_ℤ (pos 0) pid
    then holds (λ p. eqb_ℤ p.pid pid) o
    else if eqb_ℤ pid (negsuc 0)
    then true
    else holds (λ p. eqb_ℤ p.pgrp (pos 0 -ℤ pid)) o

-- One round of a loop: the value to return, and the slot.
pub kill_slot : ℤ → ℤ → Task → ℤ → Option Task → ℤ × Option Task
kill_slot pid sig me retval o =
    let (err, o') = send_sig sig o (eqb_ℤ pid (pos 0)) me in
    if selects pid me o
    then (if eqb_ℤ err (pos 0) then (retval, o') else (err, o'))
    else (retval, o)

-- The slots from `i` down to 1.
pub kill_loop : ℤ → ℤ → Task → ℕ → ℤ → Tasks → ℤ × Tasks
kill_loop pid sig me zero retval ts = (retval, ts)
kill_loop pid sig me (suc i) retval ts =
    let (r, o) = kill_slot pid sig me retval (get_or ts (suc i) none) in
    kill_loop pid sig me i r (set ts (suc i) o)

pub sys_kill : ℤ → ℤ → Task → Tasks → ℤ × Tasks
sys_kill pid sig me ts = kill_loop pid sig me (nr_tasks - 1) (pos 0) ts
