-- ===== src/Fs/Descriptors.antt =====
-- File descriptors: dupfd, sys_dup, sys_dup2 and sys_fcntl of fs/fcntl.c, sys_close of fs/open.c and
-- sys_pipe of fs/pipe.c. A slot of `filp` holds the number of an entry of file_table. The inode
-- that sys_close gives to iput is the one of the file that its result names; what get_pipe_inode
-- finds is an argument of sys_pipe.
pub mod Balance
pub mod Counts
pub mod Dup2
mod Tests
use linux_0_11_lab.Base.{
  Bool, List, Option, [], bit_and, bit_or, false, get_or, if◌then◌else◌, leb, none, set, some, suc,
  true, zero, ℕ, ◌%◌, ◌+◌, ◌-◌, ◌/◌, ◌==◌, ◌^◌, ◌∷◌,
}
use linux_0_11_lab.Base.Bits.{complement}
use linux_0_11_lab.Base.Int.{negsuc, pos, ℤ}

pub record Files : Type 0 where
  pub filp : List (Option ℕ)
  pub close_on_exec : ℕ
  pub f_count : List ℕ
  pub f_flags : List ℕ
  pub f_mode : List ℕ
  pub f_inode : List ℕ
  pub f_pos : List ℕ

abbrev pub nr_open : ℕ
nr_open = 20

abbrev pub ebadf : ℤ
ebadf = negsuc 8

abbrev pub einval : ℤ
einval = negsuc 21

abbrev pub emfile : ℤ
emfile = negsuc 23

-- `x & ~(1 << n)`
abbrev pub without_bit : ℕ → ℕ → ℕ
without_bit n x = bit_and x (complement 32 (2 ^ n))

abbrev pub count_of : Files → ℕ → ℕ
count_of s file = get_or s.f_count file 0

-- The loop of dupfd, `n` short of the end of the table.
pub next_unused : ℕ → ℕ → List (Option ℕ) → ℕ
next_unused zero arg filp = arg
next_unused (suc n) arg filp = elim (get_or filp arg none) [
  | none ↦ arg
  | some _ ↦ next_unused n (arg + 1) filp
]

abbrev pub share_file : ℕ → ℕ → Files → Files
share_file arg file s = record s {
  close_on_exec = without_bit arg s.close_on_exec;
  filp = set s.filp arg (some file);
  f_count = set s.f_count file ((count_of s file + 1) % 2 ^ 16);
}

unfoldable dupfd : ℕ → ℕ → Files → ℤ × Files
dupfd fd arg s = if leb nr_open fd then (ebadf, s) else elim (get_or s.filp fd none) [
  | none ↦ (ebadf, s)
  | some file ↦
      let found = next_unused (nr_open - arg) arg s.filp in
      if leb nr_open arg
      then (einval, s)
      else if leb nr_open found
      then (emfile, s)
      else (pos found, share_file found file s)
]

pub sys_dup : ℕ → Files → ℤ × Files
sys_dup fildes s = dupfd fildes 0 s

-- What sys_close does: its value, the file that nobody uses any more, and the tables. `panicked` is
-- the panic on a file without a count.
pub data Closed : Type 0 where
  done : ℤ → Option ℕ → Files → Closed
  panicked : Closed

pub sys_close : ℕ → Files → Closed
sys_close fd s =
    let s1 : Files = record s { close_on_exec = without_bit fd s.close_on_exec } in
    if leb nr_open fd then done einval none s else elim (get_or s.filp fd none) [
      | none ↦ done einval none s1
      | some file ↦
          let s2 : Files = record s1 { filp = set s.filp fd none } in
          let s3 : Files = record s2 { f_count = set s.f_count file (count_of s file - 1) } in
          if count_of s file == 0
          then panicked
          else if count_of s file == 1
          then done (pos 0) (some file) s3
          else done (pos 0) none s3
    ]

pub sys_dup2 : ℕ → ℕ → Files → Closed
sys_dup2 oldfd newfd s = elim (sys_close newfd s) [
  | done _ released s' ↦ let (value, s'') = dupfd oldfd newfd s' in done value released s''
  | panicked ↦ panicked
]

-- O_APPEND | O_NONBLOCK
abbrev pub settable : ℕ
settable = 0o6000

-- The commands of fcntl.
pub data Command : Type 0 where
  f_dupfd : Command
  f_getfd : Command
  f_setfd : Command
  f_getfl : Command
  f_setfl : Command
  f_other : Command

pub sys_fcntl : ℕ → Command → ℕ → Files → ℤ × Files
sys_fcntl fd cmd arg s = if leb nr_open fd then (ebadf, s) else elim (get_or s.filp fd none) [
  | none ↦ (ebadf, s)
  | some file ↦ elim cmd [
    | f_dupfd ↦ dupfd fd arg s
    | f_getfd ↦ (pos (s.close_on_exec / 2 ^ fd % 2), s)
    | f_setfd ↦
        let bits =
          if arg % 2 == 1
          then bit_or s.close_on_exec (2 ^ fd)
          else without_bit fd s.close_on_exec in
        (pos 0, record s { close_on_exec = bits })
    | f_getfl ↦ (pos (get_or s.f_flags file 0), s)
    | f_setfl ↦
        let kept = bit_and (get_or s.f_flags file 0) (complement 16 settable) in
        (pos 0, record s { f_flags = set s.f_flags file (bit_or kept (bit_and arg settable)) })
    | f_other ↦ (negsuc 0, s)
  ]
]

-- The numbers of the first `want` elements that pass the test, of those from number `i` on.
pub first_free {ℓ} : {A : Type ℓ} → (A → Bool) → ℕ → ℕ → List A → List ℕ
first_free free zero i xs = []
first_free free (suc want) i [] = []
first_free free (suc want) i (x ∷ xs) = elim (free x) [
  | true ↦ i ∷ first_free free want (i + 1) xs
  | false ↦ first_free free (suc want) (i + 1) xs
]

abbrev pub is_none : Option ℕ → Bool
is_none none = true
is_none (some _) = false

-- The two files and descriptors of a new pipe.
abbrev pub open_pipe : ℕ → ℕ → ℕ → ℕ → ℕ → Files → Files
open_pipe inode f0 f1 fd0 fd1 s = record s {
  filp = set (set s.filp fd0 (some f0)) fd1 (some f1);
  f_count = set (set s.f_count f0 1) f1 1;
  f_inode = set (set s.f_inode f0 inode) f1 inode;
  f_pos = set (set s.f_pos f0 0) f1 0;
  f_mode = set (set s.f_mode f0 1) f1 2;
}

-- The two descriptors, none if sys_pipe returns -1.
pub sys_pipe : Option ℕ → Files → Option (ℕ × ℕ) × Files
sys_pipe pipe_inode s = elim (first_free (λ c. c == 0) 2 0 s.f_count) [
  | f0 ∷ f1 ∷ _ ↦ elim (first_free is_none 2 0 s.filp) [
    | fd0 ∷ fd1 ∷ _ ↦ elim pipe_inode [
      | some inode ↦ (some (fd0, fd1), open_pipe inode f0 f1 fd0 fd1 s)
      | none ↦ (none, s)
    ]
    | _ ↦ (none, s)
  ]
  | _ ↦ (none, s)
]
