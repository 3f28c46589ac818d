-- ===== src/Kernel/Ids/Tests.antt =====
-- The theorems on user and group ids at a set-user-id task.
use linux_0_11_lab.Base.{arith, refl, ◌≡◌}
use linux_0_11_lab.Base.Int.{pos}
use linux_0_11_lab.Kernel.Ids.{sys_setregid, sys_setreuid}
use linux_0_11_lab.Kernel.Ids.Privilege.{
  OldGroup, OldUser, setregid_unprivileged, setreuid_unprivileged,
}
use linux_0_11_lab.Kernel.Task.{Task, init_task}

-- User 5 runs a program of user 7.
abbrev user : Task
user = record init_task { uid = 5; euid = 7; gid = 2; egid = 2; sgid = 2 }

swaps : sys_setreuid (pos 7) (pos 5) user ≡ (pos 0, record user { uid = 7; euid = 5 })
unfolding sys_setreuid
swaps = refl

setreuid_unprivileged_example :
    OldUser user (sys_setreuid (pos 7) (pos 5) user).1.uid
    × OldUser user (sys_setreuid (pos 7) (pos 5) user).1.euid
setreuid_unprivileged_example =
    setreuid_unprivileged (pos 7) (pos 5) user (omega arith) (omega arith)

setregid_unprivileged_example :
    OldGroup user (sys_setregid (pos 2) (pos 3) user).1.gid
    × OldGroup user (sys_setregid (pos 2) (pos 3) user).1.egid
setregid_unprivileged_example =
    setregid_unprivileged (pos 2) (pos 3) user (omega arith) (omega arith)
