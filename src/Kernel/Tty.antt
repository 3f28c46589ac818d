-- ===== src/Kernel/Tty.antt =====
-- Terminal input: the queues of linux-0.11/include/linux/tty.h, and copy_to_cooked and tty_intr of
-- linux-0.11/kernel/chr_drv/tty_io.c. A character is a byte; as the code has it in a signed char, those
-- from 128 on are negative. `write` is the function of the terminal, which is given all of it.
pub mod Ring
pub mod Lines
pub mod Cook
pub mod Copy
mod Tests
use mathlib.Core.Option
use linux_0_11_lab.Base.{
  Bool, List, Option, bit_or, false, get_or, if◌then◌else◌, leb, ltb, map, none, not, set, some,
  suc, true, zero, ℕ, ◌%◌, ◌&&◌, ◌+◌, ◌-◌, ◌==◌, ◌^◌, ◌||◌,
}
use linux_0_11_lab.Base.Int.{eqb_ℤ, ltb_ℤ, pos, ℤ}
use linux_0_11_lab.Kernel.Task.{Task, Tasks}

-- `lines` is the field `data`, which counts the lines in the secondary queue.
pub record Queue : Type 0 where
  pub lines : ℕ
  pub head : ℕ
  pub tail : ℕ
  pub buf : List ℕ

abbrev pub buf_size : ℕ
buf_size = 1024

abbrev pub empty : Queue → Bool
empty q = q.head == q.tail

-- LEFT and FULL
abbrev pub room : Queue → ℕ
room q = (q.tail + 2 ^ 32 - q.head - 1) % 2 ^ 32 % buf_size

abbrev pub full : Queue → Bool
full q = room q == 0

abbrev pub chars : Queue → ℕ
chars q = (q.head + 2 ^ 32 - q.tail) % 2 ^ 32 % buf_size

abbrev pub last : Queue → ℕ
last q = get_or q.buf ((q.head + 2 ^ 32 - 1) % 2 ^ 32 % buf_size) 0 % 256

abbrev pub getch : Queue → ℕ × Queue
getch q = (get_or q.buf q.tail 0 % 256, record q { tail = (q.tail + 1) % buf_size })

abbrev pub putch : ℕ → Queue → Queue
putch c q = record q { buf = set q.buf q.head (c % 256); head = (q.head + 1) % buf_size }

-- `DEC(head)`
abbrev pub unput : Queue → Queue
unput q = record q { head = (q.head + 2 ^ 32 - 1) % 2 ^ 32 % buf_size }

-- The flags of c_lflag and c_iflag, and the control characters.
pub record Termios : Type 0 where
  pub icanon : Bool
  pub isig : Bool
  pub echo : Bool
  pub echoctl : Bool
  pub iuclc : Bool
  pub inlcr : Bool
  pub icrnl : Bool
  pub igncr : Bool
  pub intr_char : ℕ
  pub quit_char : ℕ
  pub erase_char : ℕ
  pub kill_char : ℕ
  pub eof_char : ℕ
  pub start_char : ℕ
  pub stop_char : ℕ

pub record Tty : Type 0 where
  pub termios : Termios
  pub pgrp : ℤ
  pub stopped : Bool
  pub read_q : Queue
  pub write_q : Queue
  pub secondary : Queue

-- A signed char against a control character, which is unsigned.
abbrev pub is_char : ℕ → ℕ → Bool
is_char c k = ltb c 128 && c == k

abbrev pub is_control : ℕ → Bool
is_control c = ltb c 32 || leb 128 c

abbrev pub ends_line : Termios → ℕ → Bool
ends_line m c = c == 10 || is_char c m.eof_char

abbrev pub tolower : ℕ → ℕ
tolower c = if leb 65 c && leb c 90 then c + 32 else c

-- The changes of c_iflag; `none` for a character that is left out.
abbrev pub returned : Termios → ℕ → Option ℕ
returned m c =
    if c == 13
    then if m.icrnl then some 10 else if m.igncr then none else some 13
    else if c == 10 && m.inlcr
    then some 13
    else some c

pub translate : Termios → ℕ → Option ℕ
translate m c = Option.map (λ d. if m.iuclc then tolower d else d) (returned m c)

abbrev in_group : ℤ → ℕ → Option Task → Option Task
in_group pgrp mask none = none
in_group pgrp mask (some p) =
    if eqb_ℤ p.pgrp pgrp then some (record p { signal = bit_or p.signal mask }) else some p

pub tty_intr : ℤ → ℕ → Tasks → Tasks
tty_intr pgrp mask ts = if not (ltb_ℤ (pos 0) pgrp) then ts else map (in_group pgrp mask) ts

module _ (write : Tty → Tty) where
  -- The echo of a character that is taken back.
  abbrev pub echo_erase : ℕ → Tty → Tty
  echo_erase c t =
      if t.termios.echo
      then write (record t {
        write_q = putch 127 (if is_control c then putch 127 t.write_q else t.write_q);
      })
      else t

  abbrev pub take_back : Tty → Tty
  take_back t =
      let e = echo_erase (last t.secondary) t in record e { secondary = unput e.secondary }

  abbrev pub at_line_start : Tty → Bool
  at_line_start t = empty t.secondary || ends_line t.termios (last t.secondary)

  -- The loop for the kill character. The queue has fewer than 1024 characters.
  pub kill_loop : ℕ → Tty → Tty
  kill_loop zero t = t
  kill_loop (suc fuel) t =
      let rest = kill_loop fuel (take_back t) in if at_line_start t then t else rest

  abbrev pub echo_char : ℕ → Tty → Tty
  echo_char c t =
      if not t.termios.echo
      then t
      else write (record t {
        write_q =
            if c == 10
            then putch 13 (putch 10 t.write_q)
            else if is_control c
            then if t.termios.echoctl then putch (c + 64) (putch 94 t.write_q) else t.write_q
            else putch c t.write_q;
      })

  abbrev pub count_line : ℕ → Tty → Tty
  count_line c t = record t {
    secondary = record t.secondary {
      lines = if ends_line t.termios c then (t.secondary.lines + 1) % 2 ^ 32 else t.secondary.lines;
    };
  }

  abbrev pub accept : ℕ → Tty → Tty
  accept c t = let e = echo_char c (count_line c t) in record e { secondary = putch c e.secondary }

  -- What one character does behind its changes. SIGINT is 2 and SIGQUIT is 3.
  pub cook : ℕ → Tty → Tasks → Tty × Tasks
  cook c t ts =
      let m = t.termios in
      if m.icanon && is_char c m.kill_char
      then (kill_loop buf_size t, ts)
      else if m.icanon && is_char c m.erase_char
      then (if at_line_start t then t else take_back t, ts)
      else if m.icanon && is_char c m.stop_char
      then (record t { stopped = true }, ts)
      else if m.icanon && is_char c m.start_char
      then (record t { stopped = false }, ts)
      else if m.isig && is_char c m.intr_char
      then (t, tty_intr t.pgrp (2 ^ 1) ts)
      else if m.isig && is_char c m.quit_char
      then (t, tty_intr t.pgrp (2 ^ 2) ts)
      else (accept c t, ts)

  abbrev pub cook_or_skip : Option ℕ → Tty → Tasks → Tty × Tasks
  cook_or_skip none t ts = (t, ts)
  cook_or_skip (some c) t ts = cook c t ts

  abbrev pub pass : Tty → Tasks → Tty × Tasks
  pass t ts =
      let (c, q) = getch t.read_q in
      cook_or_skip (translate t.termios c) (record t { read_q = q }) ts

  -- `while (!EMPTY(tty->read_q) && !FULL(tty->secondary))`
  pub copy_loop : ℕ → Tty → Tasks → Tty × Tasks
  copy_loop zero t ts = (t, ts)
  copy_loop (suc fuel) t ts =
      let (t', ts') = pass t ts in
      let rest = copy_loop fuel t' ts' in
      if empty t.read_q || full t.secondary then (t, ts) else rest

  -- What wake_up does for the readers is not here. Each pass takes a character from the read queue.
  pub copy_to_cooked : Tty → Tasks → Tty × Tasks
  copy_to_cooked t ts = copy_loop buf_size t ts
