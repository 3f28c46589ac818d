-- ===== src/Kernel/Ids/Privilege.antt =====
-- What a call may change of a task's identity.
use linux_0_11_lab.Base.{Bool-cases, arith, false, inl, inr, refl, true, ℕ, ◌<◌, ◌^◌, ◌≡◌, ◌≢◌, ◌⊎◌}
use linux_0_11_lab.Base.Int.{eqb_ℤ, ltb_ℤ, pos, ℤ}
use linux_0_11_lab.Kernel.Ids.{set_egid, short, sys_setregid, sys_setreuid}
use linux_0_11_lab.Kernel.Task.{Task, eperm, suser}

-- A user id, or a group id, that the task holds already.
abbrev pub OldUser : Task → ℕ → Type 0
OldUser t n = (n ≡ t.uid) ⊎ (n ≡ t.euid)

abbrev pub OldGroup : Task → ℕ → Type 0
OldGroup t n = (n ≡ t.gid) ⊎ (n ≡ t.egid) ⊎ (n ≡ t.sgid)

abbrev pub IsShort : Task → Type 0
IsShort t =
    (t.uid < 2 ^ 16) × (t.euid < 2 ^ 16) × (t.gid < 2 ^ 16) × (t.egid < 2 ^ 16) × (t.sgid < 2 ^ 16)

-- Without the superuser's effective id, sys_setreuid gives a task only user ids that it held.
pub setreuid_unprivileged :
    (ruid euid : ℤ) (t : Task)
    → IsShort t
    → t.euid ≢ 0
    → OldUser t (sys_setreuid ruid euid t).1.uid × OldUser t (sys_setreuid ruid euid t).1.euid
unfolding sys_setreuid
setreuid_unprivileged ruid euid t s h = ground arith

-- When sys_setreuid returns an error it has changed nothing, and it returns 0 or EPERM.
pub setreuid_error :
    (ruid euid : ℤ) (t : Task)
    → let (r, t') = sys_setreuid ruid euid t in ((r ≡ pos 0) ⊎ ((r ≡ eperm) × (t' ≡ t)))
unfolding sys_setreuid
setreuid_error ruid euid t = ground arith

set_egid_old :
    (egid : ℤ) (t : Task)
    → IsShort t
    → t.euid ≢ 0
    → ((set_egid egid t).1.gid ≡ t.gid) × OldGroup t (set_egid egid t).1.egid
unfolding set_egid
set_egid_old egid t s h = ground arith

-- An unprivileged change of the real group sets what is there.
short_same : (rgid : ℤ) (n : ℕ) → n < 2 ^ 16 → eqb_ℤ (pos n) rgid ≡ true → short rgid ≡ n
short_same rgid n h e = ground arith

-- Without the superuser's effective id, sys_setregid gives a task only group ids that it held.
pub setregid_unprivileged :
    (rgid egid : ℤ) (t : Task)
    → IsShort t
    → t.euid ≢ 0
    → OldGroup t (sys_setregid rgid egid t).1.gid × OldGroup t (sys_setregid rgid egid t).1.egid
unfolding sys_setregid
setregid_unprivileged rgid egid t s h = elim (Bool-cases (ltb_ℤ (pos 0) rgid)) [
  | inl a ↦ elim (Bool-cases (eqb_ℤ (pos t.gid) rgid)) [
    | inl b ↦
        let e : short rgid ≡ t.gid = short_same rgid t.gid s.2 b in
        let o = set_egid_old egid t s h in rw (a, b, e) (inl (o.0), o.1)
    | inr b ↦ let c : suser t ≡ false = ground arith in rw (a, b, c) (inl refl, inr (inl refl))
  ]
  | inr a ↦ let o = set_egid_old egid t s h in rw a (inl (o.0), o.1)
]
