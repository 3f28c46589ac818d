-- ===== src/Kernel/Signal/Handlers.antt =====
-- What the calls on handlers and masks keep, for SIGKILL above all.
use linux_0_11_lab.Base.{
  Bool-cases, arith, false, get_or, get_or-set_ne, get_or-set_self, inl, inr, length, not, refl, ℕ,
  ◌&&◌, ◌-◌, ◌<◌, ◌==◌, ◌^◌, ◌||◌, ◌∙◌, ◌≡◌, ◌≢◌,
}
use linux_0_11_lab.Base.Bits.{
  complement, test_bit, test_bit-and, test_bit-complement, test_bit-or, test_bit-pow,
}
use linux_0_11_lab.Base.Int.{pos, pos_part, ℤ}
use linux_0_11_lab.Kernel.Signal.{
  Frame, bad_signal, do_signal, handled, no_action, sys_sigaction, sys_signal, sys_ssetmask,
}
use linux_0_11_lab.Kernel.Task.{SigAction, Task}

-- No call of sys_signal changes what SIGKILL does; a refused one changes nothing.
pub sys_signal-sigkill :
    (signum : ℤ) (handler restorer : ℕ) (t : Task)
    → get_or (sys_signal signum handler restorer t).1.sigaction 8 no_action
      ≡ get_or t.sigaction 8 no_action
unfolding sys_signal
sys_signal-sigkill signum handler restorer t = elim (Bool-cases (bad_signal signum)) [
  | inl b ↦ rw b refl
  | inr g ↦
      let ne : pos_part signum - 1 ≢ 8 = ground arith in
      rw g (get_or-set_ne t.sigaction _ no_action ne)
]

pub sys_sigaction-sigkill :
    (signum : ℤ) (action : SigAction) (t : Task)
    → get_or (sys_sigaction signum action t).1.sigaction 8 no_action
      ≡ get_or t.sigaction 8 no_action
unfolding sys_sigaction
sys_sigaction-sigkill signum action t = elim (Bool-cases (bad_signal signum)) [
  | inl b ↦ rw b refl
  | inr g ↦
      let ne : pos_part signum - 1 ≢ 8 = ground arith in
      rw g (get_or-set_ne t.sigaction _ no_action ne)
]

-- sys_ssetmask blocks exactly the signals of the new mask but SIGKILL, and returns the old mask.
pub sys_ssetmask_bits :
    (newmask i : ℕ) (t : Task)
    → i < 32
    → (test_bit (sys_ssetmask newmask t).1.blocked i ≡ (test_bit newmask i && not (8 == i)))
      × ((sys_ssetmask newmask t).0 ≡ t.blocked)
unfolding sys_ssetmask complement
sys_ssetmask_bits newmask i t h = (
  test_bit-and i newmask (complement 32 (2 ^ 8))
      ∙ rw (test_bit-complement 32 i (2 ^ 8) (omega arith) h, test_bit-pow 8 i) refl,
  refl,
)

-- The handler that sys_signal installs is the one that it returns on the next call.
pub sys_signal-sys_signal :
    (signum : ℤ) (h1 r1 h2 r2 : ℕ) (t : Task)
    → bad_signal signum ≡ false
    → length t.sigaction ≡ 32
    → (sys_signal signum h2 r2 (sys_signal signum h1 r1 t).1).0 ≡ pos h1
unfolding sys_signal
sys_signal-sys_signal signum h1 r1 h2 r2 t g l =
    let lt : pos_part signum - 1 < length t.sigaction = ground arith in
    rw (g, get_or-set_self t.sigaction (pos_part signum - 1) _ no_action lt) refl

-- Delivering a caught signal blocks what was blocked and what the handler's mask names, SIGKILL
-- not excepted; it blocks nothing else.
pub do_signal_blocks :
    (signr eax ecx edx eip eflags esp i : ℕ) (t t' : Task) (f : Frame)
    → do_signal signr eax ecx edx eip eflags esp t ≡ handled t' f
    → test_bit t'.blocked i
      ≡ (test_bit t.blocked i || test_bit (get_or t.sigaction (signr - 1) no_action).mask i)
unfolding do_signal
do_signal_blocks signr eax ecx edx eip eflags esp i t t' f e =
    ground (arith, e, test_bit-or i t.blocked (get_or t.sigaction (signr - 1) no_action).mask)
