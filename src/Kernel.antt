-- ===== src/Kernel.antt =====
-- linux-0.11/kernel: tasks, the scheduler, timers, signals, identities and time.
pub mod Task
pub mod Sched
pub mod Timer
pub mod Mktime
pub mod Ids
pub mod Wait
pub mod Signal
pub mod Kill
pub mod Exit
pub mod Number
pub mod Vsprintf
pub mod Tty
pub mod Output
pub mod Fork
