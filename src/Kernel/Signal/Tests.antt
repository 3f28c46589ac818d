-- ===== src/Kernel/Signal/Tests.antt =====
-- The theorems on handlers and masks at concrete calls.
use linux_0_11_lab.Base.{get_or, refl, replicate, set, ◌-◌, ◌^◌, ◌≡◌}
use linux_0_11_lab.Base.Int.{pos}
use linux_0_11_lab.Kernel.Signal.{Frame, do_signal, handled, sys_signal}
use linux_0_11_lab.Kernel.Signal.Handlers.{sys_signal-sigkill}
use linux_0_11_lab.Kernel.Task.{Task, init_task, no_action}

-- A task that catches SIGINT with every signal masked.
abbrev catching : Task
catching = record init_task {
  sigaction =
      set (replicate 32 no_action) 1
        (record { handler = 4096; mask = 2 ^ 32 - 1; flags = 0; restorer = 0 });
}

sys_signal-sigkill_example :
    get_or (sys_signal (pos 9) 7 0 catching).1.sigaction 8 no_action ≡ no_action
sys_signal-sigkill_example = sys_signal-sigkill (pos 9) 7 0 catching

delivered : (t : Task) × (f : Frame) × (do_signal 2 1 2 3 400 0 8192 catching ≡ handled t f)
unfolding do_signal
delivered = (_, _, refl)
