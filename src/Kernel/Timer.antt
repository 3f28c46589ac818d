-- ===== src/Kernel/Timer.antt =====
-- The kernel timers of linux-0.11/kernel/sched.c: add_timer, and the part of do_timer that counts
-- them down. `timer_list[64]` with its `next` links is the list of its used entries in the order of
-- the links; a slot is free exactly when it is not in the list. Each entry counts the ticks after
-- the one before it. A function pointer is a number, and NULL is `none`; `call` is what a callback
-- does to the list, which it may extend by add_timer.
pub mod Insert
pub mod Expire
mod Tests
use mathlib.Core.Option
use linux_0_11_lab.Base.{
  List, Option, [], if◌then◌else◌, length, ltb, map, none, some, suc, zero, ℕ, ◌++◌, ◌+◌, ◌-◌, ◌==◌,
  ◌∷◌,
}
use linux_0_11_lab.Base.Int.{negsuc, pos, ℤ}

abbrev pub Fn : Type 0
Fn = ℕ

abbrev pub Timer : Type 0
Timer = ℕ × Fn

abbrev pub time_requests : ℕ
time_requests = 64

pub data Added : Type 0 where
  added : List Timer → Added
  called : List Timer → Added
  no_more_requests : Added

-- The `while` loop: the new entry goes down the list and is counted from the entries it passes.
pub insert : ℕ → Fn → List Timer → List Timer
insert j f [] = (j, f) ∷ []
insert j f ((k, g) ∷ q) = if ltb k j then (k, g) ∷ insert (j - k) f q else (j, f) ∷ (k, g) ∷ q

module _ (call : Fn → List Timer → List Timer) where
  pub add_timer : ℤ → Option Fn → List Timer → Added
  add_timer jiffies none q = added q
  add_timer (negsuc _) (some f) q = called (call f q)
  add_timer (pos zero) (some f) q = called (call f q)
  add_timer (pos (suc n)) (some f) q =
      if ltb (length q) time_requests then added (insert (suc n) f q) else no_more_requests

  -- `while (next_timer && next_timer->jiffies <= 0)`, on fuel, with the functions called in order.
  pub expire : ℕ → List Timer → Option (List Fn × List Timer)
  expire zero q = none
  expire (suc fuel) [] = some ([], [])
  expire (suc fuel) ((j, f) ∷ q) =
      let rest = expire fuel (call f q) in
      if j == 0 then Option.map (λ (fs, q'). (f ∷ fs, q')) rest else some ([], (j, f) ∷ q)

  -- One timer interrupt. A count that is 0 goes to -1 in the source, and is below 1 like 0.
  pub tick : ℕ → List Timer → Option (List Fn × List Timer)
  tick fuel [] = some ([], [])
  tick fuel ((j, f) ∷ q) = expire fuel ((j - 1, f) ∷ q)

  -- `n` interrupts from time `t` on: the calls made, each with its time.
  pub ticks : ℕ → ℕ → ℕ → List Timer → Option (List (ℕ × Fn) × List Timer)
  ticks fuel t zero q = some ([], q)
  ticks fuel t (suc n) q = elim (tick fuel q) [
    | none ↦ none
    | some (fs, q') ↦
        Option.map (λ (log, end). (map (λ f. (t + 1, f)) fs ++ log, end)) (ticks fuel (t + 1) n q')
  ]
