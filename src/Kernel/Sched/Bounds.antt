-- ===== src/Kernel/Sched/Bounds.antt =====
-- How far a time slice grows, also where the sum of schedule() wraps.
use linux_0_11_lab.Base.{
  Bool-cases, ap, arith, inl, inr, some, some_injective, suc, zero, ℕ, ◌*◌, ◌-◌, ◌^◌, ◌≡◌, ◌≤◌,
}
use mathlib.Core.Path.{subst}
use linux_0_11_lab.Base.Int.{
  eqb_ℤ, half, neg_part, negsuc, pos, wrap32, wrap32-small, ℤ, ◌+ℤ◌, ◌<ℤ◌, ◌≤ℤ◌,
}
use linux_0_11_lab.Kernel.Sched.{check_task, map_tasks, pick, recharge, sched_loop, schedule}
use linux_0_11_lab.Kernel.Sched.Choice.{check_task_keeps}
use linux_0_11_lab.Kernel.Sched.Pick.{AllTasks, IsReady, map_tasks-AllTasks}
use linux_0_11_lab.Kernel.Task.{Task, Tasks}

-- The priorities are at most `p`, and no slice is more than twice that.
abbrev pub IsBounded : ℕ → Tasks → Type 0
IsBounded p = AllTasks (λ t. (t.priority ≤ℤ pos p) × (t.counter ≤ℤ pos (2 * p)))

-- With it, positive priorities, and slices that are `long`s from below: what a sum that wraps keeps.
abbrev IsKept : ℕ → Task → Type 0
IsKept p t =
    ((t.priority ≤ℤ pos p) × (t.counter ≤ℤ pos (2 * p)))
    × ((pos 0 <ℤ t.priority) × (negsuc (2 ^ 31 - 1) ≤ℤ t.counter))

wrap32-least : (a : ℤ) → negsuc (2 ^ 31 - 1) ≤ℤ wrap32 a
unfolding wrap32
wrap32-least (pos n) = ground arith
wrap32-least (negsuc n) = ground arith

wrap32-below : (n : ℕ) → wrap32 (pos n) ≤ℤ pos n
unfolding wrap32
wrap32-below n = ground arith

-- A sum that does not fall below the least `long` wraps downwards at most.
wrap32_le : (a : ℤ) (n : ℕ) → neg_part a ≤ 2 ^ 31 → a ≤ℤ pos n → wrap32 a ≤ℤ pos n
wrap32_le (pos k) n l h = let b = wrap32-below k in omega (arith, b, h)
wrap32_le (negsuc k) n l h = let e = wrap32-small (negsuc k) (omega arith) l in rw e (omega arith)

half_sum :
    (p : ℕ) (t : Task)
    → t.priority ≤ℤ pos p
    → t.counter ≤ℤ pos (2 * p)
    → pos 0 <ℤ t.priority
    → negsuc (2 ^ 31 - 1) ≤ℤ t.counter
    → (neg_part (half t.counter +ℤ t.priority) ≤ 2 ^ 31)
      × (half t.counter +ℤ t.priority ≤ℤ pos (2 * p))
unfolding half ◌+ℤ◌
half_sum p t a b c d = ground arith

recharge_bounded : (p : ℕ) (t : Task) → IsKept p t → IsKept p (recharge t)
unfolding recharge
recharge_bounded p t ((a, b), (c, d)) =
    let sum = half t.counter +ℤ t.priority in
    let (low, high) = half_sum p t a b c d in
    ((a, wrap32_le sum (2 * p) low high), (c, wrap32-least sum))

check-IsKept :
    (p jiffies : ℕ) (ts : Tasks)
    → AllTasks (IsKept p) ts
    → AllTasks (IsKept p) (map_tasks (check_task jiffies) ts)
check-IsKept p jiffies ts = map_tasks-AllTasks _ (check_task jiffies) ts λ t ((a, b), (c, d)).
    let k = check_task_keeps jiffies t in ((rw (k.0) a, rw (k.1) b), (rw (k.0) c, rw (k.1) d))

sched_loop-IsKept :
    (fuel p : ℕ) (ts : Tasks) {next : ℕ} {ts' : Tasks}
    → AllTasks (IsKept p) ts
    → sched_loop fuel ts ≡ some (next, ts')
    → AllTasks (IsKept p) ts'
unfolding sched_loop
sched_loop-IsKept zero p ts all e = absurd (cc e)
sched_loop-IsKept (suc fuel) p ts {next} {ts'} all e =
    elim (Bool-cases (eqb_ℤ (pick ts 63 (negsuc 0, 0)).0 (pos 0))) [
      | inl t ↦
          let e' : sched_loop fuel (map_tasks recharge ts) ≡ some (next, ts') = rw t at e in
          sched_loop-IsKept fuel p (map_tasks recharge ts)
            (map_tasks-AllTasks _ recharge ts (recharge_bounded p) all) e'
      | inr t ↦
          let e' : some ((pick ts 63 (negsuc 0, 0)).1, ts) ≡ some (next, ts') = rw t at e in
          let same : ts ≡ ts' = ap (λ (r : ℕ × Tasks). r.1) (some_injective e') in
          subst (AllTasks (IsKept p)) same all
    ]

-- schedule() keeps every slice within twice the bound on the priorities, whatever bound holds
-- before, on tables with positive priorities and no negative slice.
pub schedule-IsBounded :
    (fuel p jiffies : ℕ) (ts : Tasks) {next : ℕ} {ts' : Tasks}
    → IsReady ts
    → IsBounded p ts
    → schedule (suc (suc fuel)) jiffies ts ≡ some (next, ts')
    → IsBounded p ts'
unfolding schedule
schedule-IsBounded fuel p jiffies ts {next} {ts'} ready b e =
    let all : AllTasks (IsKept p) ts =
      λ i t h. let (c, d) = ready i t h in (b i t h, (c, omega (arith, d))) in
    let kept =
      sched_loop-IsKept (suc (suc fuel)) p (map_tasks (check_task jiffies) ts)
        (check-IsKept p jiffies ts all) e in
    λ i t h. (kept i t h).0
