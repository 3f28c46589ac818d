-- ===== src/Kernel/Sched/Signals.antt =====
-- The signal check at the head of schedule(): which sleepers it wakes.
use linux_0_11_lab.Base.{
  arith, bit_and, bit_or, false, not, refl, true, ℕ, ◌&&◌, ◌<◌, ◌==◌, ◌^◌, ◌||◌, ◌↔◌, ◌∙◌, ◌≡◌, ◌≢◌,
  ◌≤◌, ◌⊎◌,
}
use native.Mathlib.Decide.{dec_lt, ℕ_discrete}
use linux_0_11_lab.Base.Bits.{
  bit_of_ne_zero, complement, ne_zero_of_bit, test_bit, test_bit-and, test_bit-complement,
  test_bit-or, test_bit-past, test_bit-pow,
}
use linux_0_11_lab.Kernel.Sched.{blockable, pending, wake_on_signal}
use linux_0_11_lab.Kernel.Task.{Task, TaskState}

blockable_bit : (i : ℕ) → i < 32 → test_bit blockable i ≡ not ((8 == i) || (18 == i))
unfolding complement
blockable_bit i h =
    test_bit-complement 32 i (bit_or (2 ^ 8) (2 ^ 18)) (omega arith) h
    ∙ rw (test_bit-or i (2 ^ 8) (2 ^ 18), test_bit-pow 8 i, test_bit-pow 18 i) refl

-- Signal `i + 1` is pending, not blocked, and neither SIGKILL nor SIGSTOP.
abbrev pub Wakes : Task → ℕ → Type 0
Wakes t i =
    (i < 32) × (test_bit t.signal i ≡ true) × (test_bit t.blocked i ≡ false) × (i ≢ 8) × (i ≢ 18)

pending_bit :
    (t : Task) (i : ℕ)
    → t.blocked < 2 ^ 32
    → i < 32
    → test_bit (pending t) i
      ≡ (test_bit t.signal i && (not ((8 == i) || (18 == i)) && not (test_bit t.blocked i)))
unfolding pending
pending_bit t i hb h =
    rw
      (
        test_bit-and i t.signal (bit_and blockable (complement 32 t.blocked)),
        test_bit-and i blockable (complement 32 t.blocked),
        blockable_bit i h,
        test_bit-complement 32 i t.blocked hb h,
      )
      refl

pending-lt : (t : Task) (i : ℕ) → t.blocked < 2 ^ 32 → 32 ≤ i → test_bit (pending t) i ≡ false
unfolding pending complement
pending-lt t i hb h =
    let past : test_bit blockable i ≡ false = test_bit-past 32 i blockable (omega arith) h in
    rw
      (
        test_bit-and i t.signal (bit_and blockable (complement 32 t.blocked)),
        test_bit-and i blockable (complement 32 t.blocked),
        past,
      )
      (ground arith)

-- A sleeper has a bit in the tested word exactly where a signal may wake it.
pub pending-Wakes :
    (t : Task) (i : ℕ) → t.blocked < 2 ^ 32 → (test_bit (pending t) i ≡ true) ↔ Wakes t i
pending-Wakes t i hb = elim (dec_lt i 32) [
  | yes h ↦ (ground (arith, pending_bit t i hb h), ground (arith, pending_bit t i hb h))
  | no h ↦ (ground (arith, pending-lt t i hb), ground arith)
]

-- schedule() makes a task that sleeps interruptibly runnable exactly when some signal is pending
-- that is not blocked and is neither SIGKILL nor SIGSTOP.
pub wake_on_signal_iff :
    (t : Task)
    → t.state ≡ TaskState.interruptible
    → t.blocked < 2 ^ 32
    → ((wake_on_signal t).state ≡ TaskState.running) ↔ ((i : ℕ) × Wakes t i)
unfolding wake_on_signal
wake_on_signal_iff t s hb = elim (ℕ_discrete (pending t) 0) [
  | yes e ↦
      (ground arith, λ (i, w). absurd (ne_zero_of_bit (pending t) i ((pending-Wakes t i hb).1 w) e))
  | no ne ↦ (
    λ _. let (i, h) = bit_of_ne_zero (pending t) ne in (i, (pending-Wakes t i hb).0 h),
    λ _. ground arith,
  )
]

-- A task that sleeps interruptibly and whose only pending signals are SIGKILL and SIGSTOP goes on
-- sleeping, whatever it blocks.
pub sigkill_leaves_asleep :
    (t : Task)
    → t.state ≡ TaskState.interruptible
    → t.blocked < 2 ^ 32
    → ((i : ℕ) → test_bit t.signal i ≡ true → (i ≡ 8) ⊎ (i ≡ 18))
    → wake_on_signal t ≡ t
unfolding wake_on_signal
sigkill_leaves_asleep t s hb only = elim (ℕ_discrete (pending t) 0) [
  | yes e ↦ ground arith
  | no ne ↦
      let (i, h) = bit_of_ne_zero (pending t) ne in
      let w = (pending-Wakes t i hb).0 h in absurd (ground (arith, only i w.1, w))
]
