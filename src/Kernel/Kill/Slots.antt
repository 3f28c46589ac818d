-- ===== src/Kernel/Kill/Slots.antt =====
-- What sys_kill does to each slot of the table, and what it returns.
use linux_0_11_lab.Base.{
  Bool, Bool-cases, Option, ap, arith, bit_or, false, get_or, get_or-set_ne, get_or-set_self,
  if◌then◌else◌, inl, inr, length, length-set, none, not, refl, set, some, suc, sym, true, zero, ℕ,
  ◌&&◌, ◌-◌, ◌<◌, ◌==◌, ◌^◌, ◌||◌, ◌↔◌, ◌∙◌, ◌≡◌, ◌≢◌, ◌≤◌, ◌⊎◌,
}
use native.Mathlib.Decide.{ℕ_discrete}
use linux_0_11_lab.Base.Int.{eq_of_parts, eqb_ℤ, ltb_ℤ, negsuc, pos, pos_part, ℤ, ◌-ℤ◌, ◌<ℤ◌, ◌≤ℤ◌}
use linux_0_11_lab.Kernel.Kill.{kill_loop, kill_slot, selects, send_sig, sys_kill}
use linux_0_11_lab.Kernel.Task.{Task, Tasks, nr_tasks, suser}

kill_slot-snd :
    (pid sig : ℤ) (me : Task) (retval : ℤ) (o : Option Task)
    → (kill_slot pid sig me retval o).1
      ≡ (if selects pid me o then (send_sig sig o (eqb_ℤ pid (pos 0)) me).1 else o)
unfolding kill_slot
kill_slot-snd pid sig me retval o = ground arith

-- Slots above the loop's are left alone.
kill_loop-above :
    (pid sig : ℤ) (me : Task) (i : ℕ) (retval : ℤ) (ts : Tasks) (j : ℕ)
    → i < j
    → get_or (kill_loop pid sig me i retval ts).1 j none ≡ get_or ts j none
unfolding kill_loop
kill_loop-above pid sig me zero retval ts j h = refl
kill_loop-above pid sig me (suc i) retval ts j h =
    kill_loop-above pid sig me i _ _ j (omega arith) ∙ get_or-set_ne ts _ none (omega arith)

length-kill_loop :
    (pid sig : ℤ) (me : Task) (i : ℕ) (retval : ℤ) (ts : Tasks)
    → length (kill_loop pid sig me i retval ts).1 ≡ length ts
unfolding kill_loop
length-kill_loop pid sig me zero retval ts = refl
length-kill_loop pid sig me (suc i) retval ts =
    length-kill_loop pid sig me i _ _ ∙ length-set ts (suc i) _

-- What the loop leaves in a slot.
unfoldable pub signalled : ℤ → ℤ → Task → Option Task → Option Task
signalled pid sig me o = if selects pid me o then (send_sig sig o (eqb_ℤ pid (pos 0)) me).1 else o

-- The error that a slot contributes.
pub slot_error : ℤ → ℤ → Task → Option Task → ℤ
slot_error pid sig me o =
    if selects pid me o then (send_sig sig o (eqb_ℤ pid (pos 0)) me).0 else pos 0

kill_loop-slot :
    (pid sig : ℤ) (me : Task) (i : ℕ) (retval : ℤ) (ts : Tasks) (j : ℕ)
    → 1 ≤ j
    → j ≤ i
    → i < length ts
    → get_or (kill_loop pid sig me i retval ts).1 j none ≡ signalled pid sig me (get_or ts j none)
unfolding kill_loop signalled
kill_loop-slot pid sig me zero retval ts j a b l = absurd (omega arith)
kill_loop-slot pid sig me (suc i) retval ts j a b l = elim (ℕ_discrete j (suc i)) [
  | yes e ↦ rw e (
      kill_loop-above pid sig me i _ _ (suc i) (omega arith)
      ∙ get_or-set_self ts (suc i) _ none l
      ∙ kill_slot-snd pid sig me retval (get_or ts (suc i) none))
  | no ne ↦
      let o = (kill_slot pid sig me retval (get_or ts (suc i) none)).1 in
      let le : i < length (set ts (suc i) o) = omega (arith, length-set ts (suc i) o) in
      let away : get_or (set ts (suc i) o) j none ≡ get_or ts j none =
        get_or-set_ne ts o none (λ h. ne (sym h)) in
      kill_loop-slot pid sig me i _ (set ts (suc i) o) j a (omega arith) le
      ∙ ap (signalled pid sig me) away
]

abbrev AllDone : ℤ → ℤ → Task → ℕ → Tasks → Type 0
AllDone pid sig me i ts = (j : ℕ) → 1 ≤ j → j ≤ i → slot_error pid sig me (get_or ts j none) ≡ pos 0

kill_slot-zero :
    (pid sig : ℤ) (me : Task) (retval : ℤ) (o : Option Task)
    → ((kill_slot pid sig me retval o).0 ≡ pos 0)
      ↔ ((slot_error pid sig me o ≡ pos 0) × (retval ≡ pos 0))
unfolding kill_slot slot_error
kill_slot-zero pid sig me retval o = (ground arith, ground arith)

kill_loop-zero :
    (pid sig : ℤ) (me : Task) (i : ℕ) (retval : ℤ) (ts : Tasks)
    → ((kill_loop pid sig me i retval ts).0 ≡ pos 0) ↔ ((retval ≡ pos 0) × AllDone pid sig me i ts)
unfolding kill_loop
kill_loop-zero pid sig me zero retval ts = (λ e. (e, λ j a b. absurd (omega arith)), λ h. h.0)
kill_loop-zero pid sig me (suc i) retval ts =
    let o = get_or ts (suc i) none in
    let s = kill_slot pid sig me retval o in
    let ts' = set ts (suc i) (s.1) in
    let ih = kill_loop-zero pid sig me i (s.0) ts' in
    let z = kill_slot-zero pid sig me retval o in
    let away : (j : ℕ) → j ≤ i → get_or ts' j none ≡ get_or ts j none =
      λ j b. get_or-set_ne ts (s.1) none (omega arith) in
    (
      λ e.
          let (r, all) = ih.0 e in
          (
            (z.0 r).1,
            λ j a b. elim (ℕ_discrete j (suc i)) [
              | yes same ↦ rw same ((z.0 r).0)
              | no ne ↦
                  let le : j ≤ i = omega arith in
                  sym (ap (slot_error pid sig me) (away j le)) ∙ all j a le
            ],
          ),
      λ (r, all). ih.1 (
        z.1 (all (suc i) (omega arith) (omega arith), r),
        λ j a b. ap (slot_error pid sig me) (away j b) ∙ all j a (omega arith),
      ),
    )

kill-signalled :
    (pid sig : ℤ) (me : Task) (ts : Tasks) (j : ℕ)
    → length ts ≡ nr_tasks
    → 1 ≤ j
    → j < nr_tasks
    → get_or (sys_kill pid sig me ts).1 j none ≡ signalled pid sig me (get_or ts j none)
unfolding sys_kill
kill-signalled pid sig me ts j l a b =
    kill_loop-slot pid sig me 63 (pos 0) ts j a (omega arith) (omega arith)

-- The tasks that `pid` asks for: those whose group is the caller's pid, the one with that pid, all,
-- or those of the group -pid.
abbrev pub IsTarget : ℤ → Task → Task → Type 0
IsTarget pid me p =
    ((pid ≡ pos 0) × (p.pgrp ≡ me.pid))
    ⊎ ((pos 0 <ℤ pid) × (p.pid ≡ pid))
    ⊎ (pid ≡ negsuc 0)
    ⊎ ((pid <ℤ negsuc 0) × (p.pgrp ≡ pos 0 -ℤ pid))

-- The signal is a number from 1 to 32, and the caller is privileged: by pid 0, by the same user or
-- as the superuser.
abbrev pub MaySignal : ℤ → ℤ → Task → Task → Type 0
MaySignal pid sig me p =
    (pos 0 <ℤ sig) × (sig ≤ℤ pos 32) × ((pid ≡ pos 0) ⊎ (me.euid ≡ p.euid) ⊎ (me.euid ≡ 0))

-- What becomes of a slot.
pub data SlotAfter (pid sig : ℤ) (me : Task) : Option Task → Option Task → Type 0 where
  stays_empty : SlotAfter pid sig me none none
  gets :
      (p : Task)
      → IsTarget pid me p
      → MaySignal pid sig me p
      → SlotAfter pid sig me
          (some p)
          (some (record p { signal = bit_or p.signal (2 ^ (pos_part sig - 1)) }))
  spared :
      (p : Task)
      → ¬ (IsTarget pid me p × MaySignal pid sig me p)
      → SlotAfter pid sig me (some p) (some p)

eqb_ℤ-iff : (a b : ℤ) → (eqb_ℤ a b ≡ true) ↔ (a ≡ b)
eqb_ℤ-iff a b = (λ e. eq_of_parts a b (ground (arith, e)), λ e. rw e (ground arith))

selects-IsTarget : (pid : ℤ) (me p : Task) → (selects pid me (some p) ≡ true) ↔ IsTarget pid me p
unfolding selects
selects-IsTarget pid me p =
    let a = eqb_ℤ-iff pid (pos 0) in
    let b = eqb_ℤ-iff pid (negsuc 0) in
    let c = eqb_ℤ-iff p.pgrp me.pid in
    let d = eqb_ℤ-iff p.pid pid in
    let e = eqb_ℤ-iff p.pgrp (pos 0 -ℤ pid) in
    (ground (arith, a, b, c, d, e), ground (arith, a, b, c, d, e))

may_signal : ℤ → ℤ → Task → Task → Bool
may_signal pid sig me p =
    not (ltb_ℤ sig (pos 1) || ltb_ℤ (pos 32) sig)
    && (eqb_ℤ pid (pos 0) || me.euid == p.euid || suser me)

may_signal-MaySignal :
    (pid sig : ℤ) (me p : Task) → (may_signal pid sig me p ≡ true) ↔ MaySignal pid sig me p
unfolding may_signal
may_signal-MaySignal pid sig me p =
    let a = eqb_ℤ-iff pid (pos 0) in (ground (arith, a), ground (arith, a))

signalled_yes :
    (pid sig : ℤ) (me p : Task)
    → selects pid me (some p) ≡ true
    → may_signal pid sig me p ≡ true
    → signalled pid sig me (some p)
      ≡ some (record p { signal = bit_or p.signal (2 ^ (pos_part sig - 1)) })
unfolding signalled send_sig may_signal
signalled_yes pid sig me p a b = ground (arith, a, b)

signalled_no :
    (pid sig : ℤ) (me p : Task)
    → (selects pid me (some p) && may_signal pid sig me p) ≡ false
    → signalled pid sig me (some p) ≡ some p
unfolding signalled send_sig may_signal
signalled_no pid sig me p h = ground (arith, h)

signalled-SlotAfter :
    (pid sig : ℤ) (me : Task) (o : Option Task) → SlotAfter pid sig me o (signalled pid sig me o)
unfolding signalled send_sig
signalled-SlotAfter pid sig me none =
    let e : signalled pid sig me none ≡ none = ground arith in rw e stays_empty
signalled-SlotAfter pid sig me (some p) =
    let t = selects-IsTarget pid me p in
    let u = may_signal-MaySignal pid sig me p in
    elim (Bool-cases (selects pid me (some p) && may_signal pid sig me p)) [
      | inl h ↦
          let a : selects pid me (some p) ≡ true = ground (arith, h) in
          let b : may_signal pid sig me p ≡ true = ground (arith, h) in
          let e : signalled pid sig me (some p)
              ≡ some (record p { signal = bit_or p.signal (2 ^ (pos_part sig - 1)) }) =
            signalled_yes pid sig me p a b in
          rw e (gets p (t.0 a) (u.0 b))
      | inr h ↦
          let e : signalled pid sig me (some p) ≡ some p = signalled_no pid sig me p h in
          rw e (
            spared p (λ (x, y). let a = t.1 x in let b = u.1 y in absurd (ground (arith, a, b, h))))
    ]

-- sys_kill gives the signal to each task in a slot from task[1] on that `pid` asks for, where its
-- number is from 1 to 32 and pid is 0, the task has the caller's effective user or that is the
-- superuser. All other slots are left as they were.
pub sys_kill_slots :
    (pid sig : ℤ) (me : Task) (ts : Tasks) (j : ℕ)
    → length ts ≡ nr_tasks
    → 1 ≤ j
    → j < nr_tasks
    → SlotAfter pid sig me (get_or ts j none) (get_or (sys_kill pid sig me ts).1 j none)
sys_kill_slots pid sig me ts j l a b =
    rw (kill-signalled pid sig me ts j l a b) (signalled-SlotAfter pid sig me (get_or ts j none))

-- sys_kill returns 0 exactly when no slot that it selects gives an error.
pub sys_kill-zero :
    (pid sig : ℤ) (me : Task) (ts : Tasks)
    → ((sys_kill pid sig me ts).0 ≡ pos 0)
      ↔ ((j : ℕ) → 1 ≤ j → j < nr_tasks → slot_error pid sig me (get_or ts j none) ≡ pos 0)
unfolding sys_kill
sys_kill-zero pid sig me ts =
    let z = kill_loop-zero pid sig me 63 (pos 0) ts in
    (λ e j a b. (z.0 e).1 j a (omega arith), λ all. z.1 (refl, λ j a b. all j a (omega arith)))

-- With pid -1 sys_kill fails as soon as one slot but the first is empty, whatever it signalled.
pub sys_kill_all_fails :
    (sig : ℤ) (me : Task) (ts : Tasks) (j : ℕ)
    → 1 ≤ j
    → j < nr_tasks
    → get_or ts j none ≡ none
    → (sys_kill (negsuc 0) sig me ts).0 ≢ pos 0
unfolding slot_error selects send_sig
sys_kill_all_fails sig me ts j a b e z =
    let h = (sys_kill-zero (negsuc 0) sig me ts).0 z j a b in
    let h' : slot_error (negsuc 0) sig me none ≡ pos 0 = rw e at h in absurd (cc h')
