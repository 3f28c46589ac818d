-- ===== src/Kernel/Task.antt =====
-- The process descriptor of include/linux/sched.h, and the numbers that the kernel's calls return.
-- `ldt` and `tss` are hardware formats and have no field here.
use linux_0_11_lab.Base.{Bool, List, Option, false, none, replicate, true, ℕ, ◌-◌, ◌==◌, ◌^◌}
use linux_0_11_lab.Base.Int.{negsuc, pos, ℤ}

pub data TaskState : Type 0 where
  running interruptible uninterruptible zombie stopped : TaskState

abbrev pub is_running : TaskState → Bool
is_running TaskState.running = true
is_running TaskState.interruptible = false
is_running TaskState.uninterruptible = false
is_running TaskState.zombie = false
is_running TaskState.stopped = false

abbrev pub is_interruptible : TaskState → Bool
is_interruptible TaskState.interruptible = true
is_interruptible TaskState.running = false
is_interruptible TaskState.uninterruptible = false
is_interruptible TaskState.zombie = false
is_interruptible TaskState.stopped = false

-- `struct sigaction`; handler 0 is SIG_DFL and 1 is SIG_IGN.
pub record SigAction : Type 0 where
  pub handler : ℕ
  pub mask : ℕ
  pub flags : ℕ
  pub restorer : ℕ

-- Words that hold bits are natural numbers below 2 ^ 32; a `struct file *` or `struct m_inode *` is
-- an index into `file_table` or `inode_table`, and NULL is `none`.
pub record Task : Type 0 where
  pub state : TaskState
  pub counter : ℤ
  pub priority : ℤ
  pub signal : ℕ
  pub sigaction : List SigAction
  pub blocked : ℕ
  pub exit_code : ℕ
  pub start_code : ℕ
  pub end_code : ℕ
  pub end_data : ℕ
  pub brk : ℕ
  pub start_stack : ℕ
  pub pid : ℤ
  pub father : ℤ
  pub pgrp : ℤ
  pub session : ℤ
  pub leader : Bool
  pub uid : ℕ
  pub euid : ℕ
  pub suid : ℕ
  pub gid : ℕ
  pub egid : ℕ
  pub sgid : ℕ
  pub alarm : ℕ
  pub utime : ℕ
  pub stime : ℕ
  pub cutime : ℕ
  pub cstime : ℕ
  pub start_time : ℕ
  pub tty : ℤ
  pub umask : ℕ
  pub pwd : Option ℕ
  pub root : Option ℕ
  pub executable : Option ℕ
  pub close_on_exec : ℕ
  pub filp : List (Option ℕ)

-- `task[NR_TASKS]`
abbrev pub Tasks : Type 0
Tasks = List (Option Task)

abbrev pub nr_tasks : ℕ
nr_tasks = 64

abbrev pub hz : ℕ
hz = 100

-- An error return is the negated number of include/errno.h.
abbrev pub neg_errno : ℕ → ℤ
neg_errno e = negsuc (e - 1)

abbrev pub eperm : ℤ
eperm = neg_errno 1

abbrev pub esrch : ℤ
esrch = neg_errno 3

abbrev pub eintr : ℤ
eintr = neg_errno 4

abbrev pub ebadf : ℤ
ebadf = neg_errno 9

abbrev pub echild : ℤ
echild = neg_errno 10

abbrev pub eagain : ℤ
eagain = neg_errno 11

abbrev pub einval : ℤ
einval = neg_errno 22

abbrev pub emfile : ℤ
emfile = neg_errno 24

-- `suser()`
abbrev pub suser : Task → Bool
suser t = t.euid == 0

-- `_S(nr)`: the word with the bit of signal `nr`.
abbrev pub sig_bit : ℕ → ℕ
sig_bit nr = 2 ^ (nr - 1)

abbrev pub sigkill : ℕ
sigkill = 9

abbrev pub sigalrm : ℕ
sigalrm = 14

abbrev pub sigchld : ℕ
sigchld = 17

abbrev pub sigstop : ℕ
sigstop = 19

abbrev pub no_action : SigAction
no_action = record { handler = 0; mask = 0; flags = 0; restorer = 0 }

-- INIT_TASK
abbrev pub init_task : Task
init_task = record {
  state = TaskState.running;
  counter = pos 15;
  priority = pos 15;
  signal = 0;
  sigaction = replicate 32 no_action;
  blocked = 0;
  exit_code = 0;
  start_code = 0;
  end_code = 0;
  end_data = 0;
  brk = 0;
  start_stack = 0;
  pid = pos 0;
  father = negsuc 0;
  pgrp = pos 0;
  session = pos 0;
  leader = false;
  uid = 0;
  euid = 0;
  suid = 0;
  gid = 0;
  egid = 0;
  sgid = 0;
  alarm = 0;
  utime = 0;
  stime = 0;
  cutime = 0;
  cstime = 0;
  start_time = 0;
  tty = negsuc 0;
  umask = 18;
  pwd = none;
  root = none;
  executable = none;
  close_on_exec = 0;
  filp = replicate 20 none;
}
