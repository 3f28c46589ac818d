-- ===== src/Kernel/Signal.antt =====
-- linux-0.11/kernel/signal.c: the calls on handlers and masks, and the delivery of one signal. The
-- structures that a call reads from user memory are arguments; what it writes there is a result.
pub mod Handlers
mod Tests
use linux_0_11_lab.Base.{
  Bool, List, Option, [], bit_and, bit_or, get_or, if◌then◌else◌, none, not, set, some, ℕ, ◌%◌, ◌*◌,
  ◌++◌, ◌+◌, ◌-◌, ◌==◌, ◌^◌, ◌||◌, ◌∷◌,
}
use linux_0_11_lab.Base.Bits.{complement}
use linux_0_11_lab.Base.Int.{eqb_ℤ, ltb_ℤ, negsuc, pos, pos_part, ℤ}
use linux_0_11_lab.Kernel.Task.{SigAction, Task, no_action, sig_bit, sigchld, sigkill}

abbrev pub sa_nomask : ℕ
sa_nomask = 2 ^ 30

abbrev pub sa_oneshot : ℕ
sa_oneshot = 2 ^ 31

pub sys_sgetmask : Task → ℕ
sys_sgetmask t = t.blocked

pub sys_ssetmask : ℕ → Task → ℕ × Task
unfolding complement
sys_ssetmask newmask t =
    (t.blocked, record t { blocked = bit_and newmask (complement 32 (sig_bit sigkill)) })

abbrev pub bad_signal : ℤ → Bool
bad_signal n = ltb_ℤ n (pos 1) || ltb_ℤ (pos 32) n || eqb_ℤ n (pos sigkill)

-- -1, or the handler that was set before.
pub sys_signal : ℤ → ℕ → ℕ → Task → ℤ × Task
sys_signal signum handler restorer t =
    let i = pos_part signum - 1 in
    let tmp : SigAction = record {
      handler = handler;
      mask = 0;
      flags = sa_oneshot + sa_nomask;
      restorer = restorer;
    } in
    if bad_signal signum then (negsuc 0, t) else (
      pos (get_or t.sigaction i no_action).handler,
      record t { sigaction = set t.sigaction i tmp },
    )

-- The mask that sys_sigaction leaves in a handler.
pub own_mask : ℕ → SigAction → SigAction
own_mask i a =
    if bit_and a.flags sa_nomask == 0
    then record a { mask = bit_or a.mask (2 ^ i) }
    else record a { mask = 0 }

-- `action` is what get_new() reads; the third part is what save_old() writes to `oldaction`.
pub sys_sigaction : ℤ → SigAction → Task → ℤ × Task × Option SigAction
sys_sigaction signum action t =
    let i = pos_part signum - 1 in
    if bad_signal signum then (negsuc 0, t, none) else (
      pos 0,
      record t { sigaction = set t.sigaction i (own_mask i action) },
      some (get_or t.sigaction i no_action),
    )

pub record Frame : Type 0 where
  pub eip : ℕ
  pub esp : ℕ
  pub pushed : List ℕ

pub data Delivered : Type 0 where
  ignored : Delivered
  exits : ℕ → Delivered
  handled : Task → Frame → Delivered

-- do_signal() for signal `signr`, with the registers that it saves; `pushed` is written upwards from
-- the new stack pointer. Addresses are words of 32 bits.
pub deliver : ℕ → (eax ecx edx eip eflags esp : ℕ) → SigAction → Task → Delivered
deliver signr eax ecx edx eip eflags esp sa t =
    let i = signr - 1 in
    let nomask = not (bit_and sa.flags sa_nomask == 0) in
    let longs = if nomask then 7 else 8 in
    let kept : SigAction =
      (if bit_and sa.flags sa_oneshot == 0 then sa else record sa { handler = 0 }) in
    let saved = if nomask then [] else t.blocked ∷ [] in
    if sa.handler == 1
    then ignored
    else if sa.handler == 0
    then (if signr == sigchld then ignored else exits (2 ^ i))
    else handled
        (record t { blocked = bit_or t.blocked sa.mask; sigaction = set t.sigaction i kept })
        (record {
          eip = sa.handler;
          esp = (esp + 2 ^ 32 - 4 * longs) % 2 ^ 32;
          pushed = (sa.restorer ∷ signr ∷ []) ++ (saved ++ (eax ∷ ecx ∷ edx ∷ eflags ∷ eip ∷ []));
        })

pub do_signal : ℕ → (eax ecx edx eip eflags esp : ℕ) → Task → Delivered
unfolding deliver
do_signal signr eax ecx edx eip eflags esp t =
    deliver signr eax ecx edx eip eflags esp (get_or t.sigaction (signr - 1) no_action) t
