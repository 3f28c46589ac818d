-- ===== src/Kernel/Sched/Choice.antt =====
-- What schedule() chooses, and that its loop ends.
use mathlib.Core.Option
use linux_0_11_lab.Base.{
  Bool-cases, ap, arith, false, get_or, inl, inr, none, refl, some, suc, true, zero, ℕ, ◌<◌, ◌^◌,
  ◌∙◌, ◌≡◌, ◌≤◌, ◌⊎◌,
}
use mathlib.Core.Path.{subst}
use linux_0_11_lab.Base.Int.{eqb_ℤ, half, negsuc, pos, wrap32-small, ℤ, ◌+ℤ◌, ◌<ℤ◌, ◌≤ℤ◌}
use linux_0_11_lab.Kernel.Sched.{
  check_task, map_tasks, pick, recharge, ring_alarm, sched_loop, schedule, wake_on_signal,
}
use linux_0_11_lab.Kernel.Sched.Pick.{
  AllTasks, IsReady, IsSmall, Picked, Runnable, Scanned, get_or-map_tasks, map_tasks-AllTasks,
  pick-Scanned,
}
use linux_0_11_lab.Kernel.Task.{Task, Tasks}

ready_at :
    (ts : Tasks) {t : Task} (j : ℕ)
    → IsReady ts
    → 1 ≤ j
    → get_or ts j none ≡ some t
    → (pos 0 <ℤ t.priority) × (pos 0 ≤ℤ t.counter)
ready_at ts zero ready h e = absurd (omega arith)
ready_at ts (suc j) ready h e = ready j _ e

abbrev scan : Tasks → ℤ × ℕ
scan ts = pick ts 63 (negsuc 0, 0)

-- All runnable tasks have used up their slices.
abbrev Spent : Tasks → Type 0
Spent ts = (n : ℕ) × (t : Task) × (n < 63) × Runnable ts (suc n) t × (t.counter ≡ pos 0)

Spent-intro :
    (ts : Tasks) {t : Task} (n : ℕ)
    → 1 ≤ n
    → n ≤ 63
    → Runnable ts n t
    → t.counter ≡ pos 0
    → Spent ts
Spent-intro ts zero a b r e = absurd (omega arith)
Spent-intro ts {t} (suc n) a b r e = (n, t, b, r, e)

round :
    (ts : Tasks)
    → IsReady ts
    → ((eqb_ℤ (scan ts).0 (pos 0) ≡ false) × Picked (scan ts).1 ts)
      ⊎ ((eqb_ℤ (scan ts).0 (pos 0) ≡ true) × Spent ts)
round ts ready = elim s.from [
  | inl e ↦ inl (
    rw e refl,
    inr (
      rw e refl,
      λ j u a b r.
          let le : u.counter ≤ℤ negsuc 0 =
            subst (λ (f : ℤ × ℕ). u.counter ≤ℤ f.0) e (s.bounds j u a (omega arith) r) in
          omega (arith, ready_at ts j ready a (r.0)),
    ),
  )
  | inr (t, a, b, r, c) ↦ elim (Bool-cases (eqb_ℤ (scan ts).0 (pos 0))) [
    | inl z ↦ inr (z, Spent-intro ts (scan ts).1 a b r (ground arith))
    | inr z ↦
        let p = ready_at ts (scan ts).1 ready a (r.0) in
        inl (
          z,
          inl (
            t,
            a,
            omega arith,
            r,
            ground arith,
            λ j u k l q. rw c (s.bounds j u k (omega arith) q),
          ),
        )
  ]
]
  where
    s : Scanned ts 63 (negsuc 0, 0) (scan ts)
    s = pick-Scanned ts 63 (negsuc 0, 0)

-- IsReady and IsSmall.
abbrev IsSound : Tasks → Type 0
IsSound = AllTasks (λ t.
    ((pos 0 <ℤ t.priority) × (pos 0 ≤ℤ t.counter))
    × ((t.priority <ℤ pos (2 ^ 30)) × (t.counter <ℤ pos (2 ^ 31))))

IsReady-IsSound : (ts : Tasks) → IsSound ts → IsReady ts
IsReady-IsSound ts sound i t e = (sound i t e).0

IsSmall-IsSound : (ts : Tasks) → IsSound ts → IsSmall ts
IsSmall-IsSound ts sound i t e = (sound i t e).1

recharge_keeps :
    (t : Task)
    → pos 0 <ℤ t.priority
    → pos 0 ≤ℤ t.counter
    → t.priority <ℤ pos (2 ^ 30)
    → t.counter <ℤ pos (2 ^ 31)
    → (pos 0 <ℤ (recharge t).priority)
      × (pos 0 <ℤ (recharge t).counter)
      × ((recharge t).priority <ℤ pos (2 ^ 30))
      × ((recharge t).counter <ℤ pos (2 ^ 31))
unfolding recharge half ◌+ℤ◌
recharge_keeps t p c p' c' =
    let small = wrap32-small (half t.counter +ℤ t.priority) (ground arith) (ground arith) in
    rw small (ground arith)

pub check_task_keeps :
    (jiffies : ℕ) (t : Task)
    → ((check_task jiffies t).priority ≡ t.priority) × ((check_task jiffies t).counter ≡ t.counter)
unfolding check_task ring_alarm wake_on_signal
check_task_keeps jiffies t = ground arith

recharge-IsSound : (ts : Tasks) → IsSound ts → IsSound (map_tasks recharge ts)
recharge-IsSound ts = map_tasks-AllTasks _ recharge ts λ t ((p, c), (p', c')).
    let (r, k, r', k') = recharge_keeps t p c p' c' in ((r, omega (arith, k)), (r', k'))

check-IsSound :
    (jiffies : ℕ) (ts : Tasks) → IsSound ts → IsSound (map_tasks (check_task jiffies) ts)
check-IsSound jiffies ts = map_tasks-AllTasks _ (check_task jiffies) ts λ t ((p, c), (p', c')).
    let k = check_task_keeps jiffies t in ((rw (k.0) p, rw (k.1) c), (rw (k.0) p', rw (k.1) c'))

-- Once the slices are recharged the scan finds one that is not used up.
not-Spent-recharge :
    (ts : Tasks) → IsSound ts → Spent ts → eqb_ℤ (scan (map_tasks recharge ts)).0 (pos 0) ≡ false
unfolding recharge
not-Spent-recharge ts sound (n, t, b, (at, r), z) =
    let at' : get_or (map_tasks recharge ts) (suc n) none ≡ some (recharge t) =
      get_or-map_tasks recharge ts n ∙ ap (Option.map recharge) at in
    let s = pick-Scanned (map_tasks recharge ts) 63 (negsuc 0, 0) in
    let le = s.bounds (suc n) (recharge t) (omega arith) b (at', r) in
    let ((p, c), (p', c')) = sound n t at in
    let (_, k, _, _) = recharge_keeps t p c p' c' in ground (arith, k, le)

sched_loop_picks :
    (fuel : ℕ) (ts : Tasks)
    → IsSound ts
    → (next : ℕ) × (ts' : Tasks) × (sched_loop (suc (suc fuel)) ts ≡ some (next, ts'))
      × Picked next ts'
      × IsReady ts'
      × IsSmall ts'
      × ((ts' ≡ ts) ⊎ (ts' ≡ map_tasks recharge ts))
unfolding sched_loop
sched_loop_picks fuel ts sound = elim (round ts (IsReady-IsSound ts sound)) [
  | inl (e, p) ↦
      ((scan ts).1, ts, rw e refl, p, IsReady-IsSound ts sound, IsSmall-IsSound ts sound, inl refl)
  | inr (e, sp) ↦
      let ts' = map_tasks recharge ts in
      let sound' = recharge-IsSound ts sound in
      let e' = not-Spent-recharge ts sound sp in
      elim (round ts' (IsReady-IsSound ts' sound')) [
        | inl (_, p) ↦ (
          (scan ts').1,
          ts',
          rw (e, e') refl,
          p,
          IsReady-IsSound ts' sound',
          IsSmall-IsSound ts' sound',
          inr refl,
        )
        | inr (z, _) ↦ absurd (cc (z, e'))
      ]
]

-- schedule() ends after at most two rounds of its loop, on every table in which all tasks but
-- task[0] have a positive priority below 2 ^ 30 and a time slice that is a `long` and not negative. It then picks a runnable task
-- other than task[0] whose slice is not used up and is a longest one of the runnable tasks', or
-- task[0] where no other task is runnable. The table it leaves is the one after the signal check,
-- recharged at most once, and again has such priorities and slices.
pub schedule_picks :
    (fuel jiffies : ℕ) (ts : Tasks)
    → IsReady ts
    → IsSmall ts
    → (next : ℕ) × (ts' : Tasks) × (schedule (suc (suc fuel)) jiffies ts ≡ some (next, ts'))
      × Picked next ts'
      × IsReady ts'
      × IsSmall ts'
      × ((ts' ≡ map_tasks (check_task jiffies) ts)
          ⊎ (ts' ≡ map_tasks recharge (map_tasks (check_task jiffies) ts)))
unfolding schedule
schedule_picks fuel jiffies ts ready small =
    sched_loop_picks fuel (map_tasks (check_task jiffies) ts)
      (check-IsSound jiffies ts (λ i t e. (ready i t e, small i t e)))
