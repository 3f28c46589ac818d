-- ===== src/Kernel/Wait.antt =====
-- sleep_on() and wake_up() of linux-0.11/kernel/sched.c on one wait queue. The queue is the pointer
-- `*p` and, for each task inside sleep_on(), the `tmp` on its kernel stack. schedule() splits
-- sleep_on() in two: what a task does before it sleeps, and what it does when it runs again.
pub mod Lost
pub mod Drain
mod Tests
use mathlib.Core.Option
use linux_0_11_lab.Base.{
  Bool, List, Option, [], false, if◌then◌else◌, none, some, suc, true, zero, ℕ, ◌==◌, ◌∷◌,
}

pub record Waiting : Type 0 where
  pub head : Option ℕ
  pub saved : List (ℕ × Option ℕ)
  pub runs : ℕ → Bool

abbrev pub set_state : (ℕ → Bool) → ℕ → Bool → ℕ → Bool
set_state runs p b q = if p == q then b else runs q

abbrev pub saved_of : ℕ → List (ℕ × Option ℕ) → Option (Option ℕ)
saved_of p [] = none
saved_of p ((q, tmp) ∷ l) = if q == p then some tmp else saved_of p l

abbrev pub forget : ℕ → List (ℕ × Option ℕ) → List (ℕ × Option ℕ)
forget p [] = []
forget p ((q, tmp) ∷ l) = if q == p then l else (q, tmp) ∷ forget p l

-- sleep_on() up to schedule(), run by task `p`; task[0] panics, which is `none`.
pub sleep_on : ℕ → Waiting → Option Waiting
sleep_on zero w = none
sleep_on (suc p) w = some (record {
  head = some (suc p);
  saved = (suc p, w.head) ∷ w.saved;
  runs = set_state w.runs (suc p) false;
})

wake_task : Option ℕ → (ℕ → Bool) → ℕ → Bool
wake_task none runs = runs
wake_task (some q) runs = set_state runs q true

-- sleep_on() from schedule() on, run by task `p` once it is picked; `none` where `p` is not inside
-- sleep_on() or does not run.
pub resume : ℕ → Waiting → Option Waiting
unfolding wake_task
resume p w =
    if w.runs p
    then Option.map
        (λ tmp. record { head = tmp; saved = forget p w.saved; runs = wake_task tmp w.runs })
        (saved_of p w.saved)
    else none

pub wake_up : Waiting → Waiting
unfolding wake_task
wake_up w = record w { head = none; runs = wake_task w.head w.runs }
