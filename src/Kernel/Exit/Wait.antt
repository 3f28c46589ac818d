-- ===== src/Kernel/Exit/Wait.antt =====
-- What sys_waitpid answers.
use linux_0_11_lab.Base.{
  Bool, Bool-cases, Option-cases, arith, false, get_or, if◌then◌else◌, inl, inr, none, not, refl,
  set, some, suc, true, zero, ℕ, ◌<◌, ◌==◌, ◌||◌, ◌≡◌, ◌≢◌, ◌≤◌, ◌⊎◌,
}
use native.Mathlib.Decide.{ℕ_discrete}
use linux_0_11_lab.Base.Int.{eqb_ℤ, pos, ℤ}
use linux_0_11_lab.Kernel.Exit.{
  Child, Scan, Waited, busy, classify, dead, found, halted, is_busy, is_ready, matches, no_child,
  reap, returns, scanned, settle, sleeps, state_child, sys_waitpid, wait_loop,
}
use linux_0_11_lab.Kernel.Task.{Task, TaskState, Tasks, echild, nr_tasks}

-- What the loop of sys_waitpid over slots 1 to `n` ends with.
pub data Looked (see : ℕ → Child) (n : ℕ) : Scan → Type 0 where
  sees :
      (i : ℕ)
      → 1 ≤ i
      → i ≤ n
      → is_ready (see i) ≡ true
      → ((j : ℕ) → i < j → j ≤ n → is_ready (see j) ≡ false)
      → Looked see n (found i (see i))
  all_busy :
      (i : ℕ)
      → 1 ≤ i
      → i ≤ n
      → see i ≡ busy
      → ((j : ℕ) → 1 ≤ j → j ≤ n → is_ready (see j) ≡ false)
      → Looked see n (scanned true)
  none_there : ((j : ℕ) → 1 ≤ j → j ≤ n → see j ≡ no_child) → Looked see n (scanned false)

neither : (c : Child) → is_ready c ≡ false → is_busy c ≡ false → c ≡ no_child
neither no_child a b = refl
neither busy a b = cc
neither halted a b = cc
neither dead a b = cc

only_busy : (c : Child) → is_busy c ≡ true → c ≡ busy
only_busy busy a = refl
only_busy no_child a = cc
only_busy halted a = cc
only_busy dead a = cc

-- The one slot more, seen not to be ready.
widen :
    (see : ℕ → Child) (n : ℕ) (s : Scan)
    → is_ready (see (suc n)) ≡ false
    → is_busy (see (suc n)) ≡ false
    → Looked see n s
    → Looked see (suc n) s
widen see n _ e f (sees i a b r above) = sees i a (omega arith) r (λ j l m.
    elim (ℕ_discrete j (suc n)) [ yes same ↦ rw same e | no ne ↦ above j l (omega arith) ])
widen see n _ e f (all_busy i a b is_there all) =
    all_busy i a (omega arith) is_there (λ j l m. elim (ℕ_discrete j (suc n)) [
      | yes same ↦ rw same e
      | no ne ↦ all j l (omega arith)
    ])
widen see n _ e f (none_there all) = none_there (λ j l m. elim (ℕ_discrete j (suc n)) [
  | yes same ↦ rw same (neither (see (suc n)) e f)
  | no ne ↦ all j l (omega arith)
])

-- With the flag set, no child that is ready is all that is known at the end.
wait_loop-flag :
    (see : ℕ → Child) (n : ℕ)
    → ((i : ℕ) × (wait_loop see n true ≡ found i (see i))
        × (1 ≤ i)
        × (i ≤ n)
        × (is_ready (see i) ≡ true)
        × ((j : ℕ) → i < j → j ≤ n → is_ready (see j) ≡ false))
      ⊎ ((wait_loop see n true ≡ scanned true)
          × ((j : ℕ) → 1 ≤ j → j ≤ n → is_ready (see j) ≡ false))
unfolding wait_loop
wait_loop-flag see zero = inr (refl, λ j a b. absurd (omega arith))
wait_loop-flag see (suc n) = elim (Bool-cases (is_ready (see (suc n)))) [
  | inl t ↦ inl (suc n, rw t refl, omega arith, omega arith, t, λ j a b. absurd (omega arith))
  | inr t ↦ elim (wait_loop-flag see n) [
    | inl (i, e, a, b, r, above) ↦ inl (
      i,
      rw t e,
      a,
      omega arith,
      r,
      λ j l m. elim (ℕ_discrete j (suc n)) [
        | yes same ↦ rw same t
        | no ne ↦ above j l (omega arith)
      ],
    )
    | inr (e, all) ↦ inr (
      rw t e,
      λ j l m. elim (ℕ_discrete j (suc n)) [ yes same ↦ rw same t | no ne ↦ all j l (omega arith) ],
    )
  ]
]

wait_loop-quiet :
    (see : ℕ → Child) (n : ℕ) → ((j : ℕ) → see j ≡ no_child) → wait_loop see n false ≡ scanned false
unfolding wait_loop
wait_loop-quiet see zero all = refl
wait_loop-quiet see (suc n) all = rw (all (suc n), wait_loop) (wait_loop-quiet see n all)

pub wait_loop_lem : (see : ℕ → Child) (n : ℕ) → Looked see n (wait_loop see n false)
unfolding wait_loop
wait_loop_lem see zero = none_there (λ j a b. absurd (omega arith))
wait_loop_lem see (suc n) = elim (Bool-cases (is_ready (see (suc n)))) [
  | inl t ↦
      rw (t, wait_loop) (sees (suc n) (omega arith) (omega arith) t (λ j a b. absurd (omega arith)))
  | inr t ↦ elim (Bool-cases (is_busy (see (suc n)))) [
    | inl u ↦ elim (wait_loop-flag see n) [
      | inl (i, e, a, b, r, above) ↦
          let q : wait_loop see (suc n) false ≡ found i (see i) = rw (t, u) e in
          rw q (
            sees i a (omega arith) r (λ j l m. elim (ℕ_discrete j (suc n)) [
              | yes same ↦ rw same t
              | no ne ↦ above j l (omega arith)
            ]))
      | inr (e, all) ↦
          let q : wait_loop see (suc n) false ≡ scanned true = rw (t, u) e in
          rw q (
            all_busy (suc n) (omega arith) (omega arith) (only_busy (see (suc n)) u) (λ j l m.
              elim (ℕ_discrete j (suc n)) [ yes same ↦ rw same t | no ne ↦ all j l (omega arith) ]))
    ]
    | inr u ↦
        let q : wait_loop see (suc n) false ≡ wait_loop see n false = rw (t, u) refl in
        rw q (widen see n (wait_loop see n false) t u (wait_loop_lem see n))
  ]
]

-- Task `p` is a child of `me` in slot `i` that a wait for `pid` asks for.
pub record IsChild (pid : ℤ) (cur : ℕ) (me : Task) (ts : Tasks) (i : ℕ) (p : Task) : Type 0 where
  pub here : get_or ts i none ≡ some p
  pub not_me : i ≢ cur
  pub mine : eqb_ℤ p.father me.pid ≡ true
  pub asked : matches pid me p ≡ true

-- What slot `j` shows to a wait.
abbrev pub seen : ℤ → Bool → ℕ → Task → Tasks → ℕ → Child
seen pid untraced cur me ts j = classify pid untraced cur me j (get_or ts j none)

-- Neither stopped nor ended.
abbrev pub IsAlive : TaskState → Type 0
IsAlive s =
    (s ≡ TaskState.running) ⊎ (s ≡ TaskState.interruptible) ⊎ (s ≡ TaskState.uninterruptible)

-- The answers of sys_waitpid, with what holds of the tasks for each.
pub data Answer (pid : ℤ) (untraced nohang : Bool) (cur : ℕ) (me : Task) (ts : Tasks)
    : Waited → Type 0 where
  reaps :
      (i : ℕ) (p : Task)
      → 1 ≤ i
      → i < nr_tasks
      → IsChild pid cur me ts i p
      → p.state ≡ TaskState.zombie
      → ((j : ℕ) → i < j → j < nr_tasks → is_ready (seen pid untraced cur me ts j) ≡ false)
      → Answer pid untraced nohang cur me ts (returns p.pid (some p.exit_code) (reap cur i p me ts))
  reports :
      (i : ℕ) (p : Task)
      → 1 ≤ i
      → i < nr_tasks
      → IsChild pid cur me ts i p
      → p.state ≡ TaskState.stopped
      → untraced ≡ true
      → ((j : ℕ) → i < j → j < nr_tasks → is_ready (seen pid untraced cur me ts j) ≡ false)
      → Answer pid untraced nohang cur me ts (returns p.pid (some 0x7f) ts)
  goes_on :
      (i : ℕ) (p : Task)
      → 1 ≤ i
      → i < nr_tasks
      → IsChild pid cur me ts i p
      → IsAlive p.state
      → ((j : ℕ) → 1 ≤ j → j < nr_tasks → is_ready (seen pid untraced cur me ts j) ≡ false)
      → Answer pid untraced nohang cur me ts (
          if nohang
          then returns (pos 0) none ts
          else sleeps (set ts cur (some (record me { state = TaskState.interruptible }))))
  childless :
      ((j : ℕ) → 1 ≤ j → j < nr_tasks → seen pid untraced cur me ts j ≡ no_child)
      → Answer pid untraced nohang cur me ts (returns echild none ts)

stopped_unseen :
    (pid : ℤ) (cur : ℕ) (me : Task) (ts : Tasks) (j : ℕ)
    → ((p : Task) → IsChild pid cur me ts j p → p.state ≡ TaskState.stopped)
    → seen pid false cur me ts j ≡ no_child
unfolding classify state_child
stopped_unseen pid cur me ts j only = elim (Option-cases (get_or ts j none)) [
  | inl e ↦ rw e refl
  | inr (p, e) ↦
      elim (Bool-cases (j == cur || not (eqb_ℤ p.father me.pid) || not (matches pid me p))) [
        | inl t ↦ rw (e, t) refl
        | inr t ↦
            let s = only p (record {
              here = e;
              not_me = ground (arith, t);
              mine = ground (arith, t);
              asked = ground (arith, t);
            }) in
            rw (e, t, s) refl
      ]
]

-- Without WUNTRACED, a task all of whose children that are asked for are stopped is told that it
-- has none: sys_waitpid returns -ECHILD and changes no task.
pub sys_waitpid_stopped :
    (pid : ℤ) (nohang : Bool) (cur : ℕ) (me : Task) (ts : Tasks)
    → ((j : ℕ) (p : Task) → IsChild pid cur me ts j p → p.state ≡ TaskState.stopped)
    → sys_waitpid pid false nohang cur me ts ≡ returns echild none ts
unfolding sys_waitpid settle
sys_waitpid_stopped pid nohang cur me ts only =
    let quiet : (j : ℕ) → seen pid false cur me ts j ≡ no_child =
      λ j. stopped_unseen pid cur me ts j (only j) in
    rw (wait_loop-quiet (seen pid false cur me ts) 63 quiet) refl
