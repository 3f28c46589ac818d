-- ===== src/Kernel/Sched/Pick.antt =====
-- What schedule() picks.
use mathlib.Core.Option
use linux_0_11_lab.Base.{
  Bool-cases, Option, Option-cases, [], ap, arith, get_or, inl, inr, map, none, refl, some,
  some_injective, suc, sym, true, zero, ℕ, ◌&&◌, ◌<◌, ◌^◌, ◌↔◌, ◌∙◌, ◌∷◌, ◌≡◌, ◌≤◌, ◌⊎◌,
}
use mathlib.Core.Path.{subst}
use native.Mathlib.Decide.{ℕ_discrete}
use linux_0_11_lab.Base.Int.{ltb_ℤ, pos, ℤ, ◌<ℤ◌, ◌≤ℤ◌}
use linux_0_11_lab.Kernel.Sched.{consider, map_tasks, pick}
use linux_0_11_lab.Kernel.Task.{Task, TaskState, Tasks, is_running, nr_tasks}

abbrev pub Runnable : Tasks → ℕ → Task → Type 0
Runnable ts i t = (get_or ts i none ≡ some t) × (t.state ≡ TaskState.running)

-- What the scan from task[i] down to task[1] leaves, started with `best`.
pub record Scanned (ts : Tasks) (i : ℕ) (best found : ℤ × ℕ) : Type 0 where
  pub grows : best.0 ≤ℤ found.0
  pub bounds : (j : ℕ) (t : Task) → 1 ≤ j → j ≤ i → Runnable ts j t → t.counter ≤ℤ found.0
  pub from :
      (found ≡ best)
      ⊎ ((t : Task) × (1 ≤ found.1) × (found.1 ≤ i) × Runnable ts found.1 t × (t.counter ≡ found.0))

is_running_iff : (s : TaskState) → (is_running s ≡ true) ↔ (s ≡ TaskState.running)
is_running_iff TaskState.running = ground arith
is_running_iff s = ground arith

consider_grows : (o : Option Task) (i : ℕ) (best : ℤ × ℕ) → best.0 ≤ℤ (consider o i best).0
unfolding consider
consider_grows none i best = omega arith
consider_grows (some t) i best = ground arith

consider_bounds :
    (o : Option Task) (i : ℕ) (best : ℤ × ℕ) (t : Task)
    → o ≡ some t
    → t.state ≡ TaskState.running
    → t.counter ≤ℤ (consider o i best).0
unfolding consider
consider_bounds none i best t e r = cc
consider_bounds (some u) i best t e r = ground arith

consider_from :
    (o : Option Task) (i : ℕ) (best : ℤ × ℕ)
    → (consider o i best ≡ best)
      ⊎ ((t : Task) × (o ≡ some t)
          × (t.state ≡ TaskState.running)
          × ((consider o i best).1 ≡ i)
          × (t.counter ≡ (consider o i best).0))
unfolding consider
consider_from none i best = inl refl
consider_from (some t) i best = elim (Bool-cases (is_running t.state && ltb_ℤ best.0 t.counter)) [
  | inl h ↦ inr (t, refl, (is_running_iff t.state).0 (ground arith), rw h refl, rw h refl)
  | inr h ↦ inl (rw h refl)
]

Scanned-step :
    (ts : Tasks) (i : ℕ) (best : ℤ × ℕ)
    → let best' = consider (get_or ts (suc i) none) (suc i) best in
      Scanned ts i best' (pick ts i best') → Scanned ts (suc i) best (pick ts (suc i) best)
unfolding pick
Scanned-step ts i best rest = record {
  grows = omega (arith, rest.grows, consider_grows o (suc i) best);
  bounds = λ j t a b r. elim (ℕ_discrete j (suc i)) [
    | yes e ↦
        let at : o ≡ some t = rw (← e) (r.0) in
        omega (arith, rest.grows, consider_bounds o (suc i) best t at r.1)
    | no ne ↦ rest.bounds j t a (omega arith) r
  ];
  from = elim rest.from [
    | inl e ↦ elim (consider_from o (suc i) best) [
      | inl e' ↦ inl (e ∙ e')
      | inr (t, at, r, n, c) ↦
          inr (t, rw (e, n) (omega arith), rw (e, n) (omega arith), rw (e, n) (at, r), rw e c)
    ]
    | inr (t, a, b, r, c) ↦ inr (t, a, omega arith, r, c)
  ];
}
  where
    o : Option Task
    o = get_or ts (suc i) none

pub pick-Scanned : (ts : Tasks) (i : ℕ) (best : ℤ × ℕ) → Scanned ts i best (pick ts i best)
pick-Scanned ts zero best =
    unfold pick in
    (record { grows = omega arith; bounds = λ j t a b r. absurd (omega arith); from = inl refl })
pick-Scanned ts (suc i) best =
    Scanned-step ts i best (pick-Scanned ts i (consider (get_or ts (suc i) none) (suc i) best))

-- Every task but task[0] satisfies `P`.
abbrev pub AllTasks : (Task → Type 0) → Tasks → Type 0
AllTasks P ts = (i : ℕ) (t : Task) → get_or ts (suc i) none ≡ some t → P t

-- The invariant of the table: every task but task[0] has a positive priority, and no time slice is
-- negative.
abbrev pub IsReady : Tasks → Type 0
IsReady = AllTasks (λ t. (pos 0 <ℤ t.priority) × (pos 0 ≤ℤ t.counter))

-- No priority reaches 2 ^ 30, and each slice is a `long`.
abbrev pub IsSmall : Tasks → Type 0
IsSmall = AllTasks (λ t. (t.priority <ℤ pos (2 ^ 30)) × (t.counter <ℤ pos (2 ^ 31)))

-- What schedule() owes its caller: the task picked is runnable and has a longest time slice left,
-- which is not used up; or task[0] is picked and no other task is runnable.
abbrev pub Picked : ℕ → Tasks → Type 0
Picked next ts =
    ((t : Task) × (1 ≤ next)
      × (next < nr_tasks)
      × Runnable ts next t
      × (pos 0 <ℤ t.counter)
      × ((j : ℕ) (u : Task) → 1 ≤ j → j < nr_tasks → Runnable ts j u → u.counter ≤ℤ t.counter))
    ⊎ ((next ≡ 0) × ((j : ℕ) (u : Task) → 1 ≤ j → j < nr_tasks → ¬ Runnable ts j u))

get_or-map :
    (f : Task → Task) (ts : Tasks) (i : ℕ)
    → get_or (map (Option.map f) ts) i none ≡ Option.map f (get_or ts i none)
get_or-map f [] i = refl
get_or-map f (t ∷ ts) zero = refl
get_or-map f (t ∷ ts) (suc i) = get_or-map f ts i

pub get_or-map_tasks :
    (f : Task → Task) (ts : Tasks) (i : ℕ)
    → get_or (map_tasks f ts) (suc i) none ≡ Option.map f (get_or ts (suc i) none)
get_or-map_tasks f [] i = refl
get_or-map_tasks f (first ∷ ts) i = get_or-map f ts i

-- A map that keeps a property of each task keeps it of the table.
pub map_tasks-AllTasks :
    (P : Task → Type 0) (f : Task → Task) (ts : Tasks)
    → ((t : Task) → P t → P (f t))
    → AllTasks P ts
    → AllTasks P (map_tasks f ts)
map_tasks-AllTasks P f ts keep all i t e = elim (Option-cases (get_or ts (suc i) none)) [
  | inl h ↦
      let z : none ≡ some t = sym (ap (Option.map f) h) ∙ sym (get_or-map_tasks f ts i) ∙ e in
      absurd (cc z)
  | inr (u, h) ↦
      let z : some (f u) ≡ some t = sym (ap (Option.map f) h) ∙ sym (get_or-map_tasks f ts i) ∙ e in
      subst P (some_injective z) (keep u (all i u h))
]
