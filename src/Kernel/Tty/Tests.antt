-- ===== src/Kernel/Tty/Tests.antt =====
-- Terminal input at concrete characters.
use linux_0_11_lab.Base.{List, [], arith, false, length-replicate, refl, replicate, true, ℕ, ◌∷◌}
use linux_0_11_lab.Base.Int.{pos}
use linux_0_11_lab.Kernel.Tty.{Queue, Termios, Tty, copy_to_cooked}
use linux_0_11_lab.Kernel.Tty.Cook.{IsTty}
use linux_0_11_lab.Kernel.Tty.Copy.{Copied, copy_to_cooked_lem}
use linux_0_11_lab.Kernel.Tty.Lines.{count_ends}
use linux_0_11_lab.Kernel.Tty.Ring.{ring}

abbrev canonical : Termios
canonical = record {
  icanon = true;
  isig = true;
  echo = true;
  echoctl = true;
  iuclc = false;
  inlcr = false;
  icrnl = true;
  igncr = false;
  intr_char = 3;
  quit_char = 28;
  erase_char = 127;
  kill_char = 21;
  eof_char = 4;
  start_char = 17;
  stop_char = 19;
}

abbrev nothing_there : Queue
nothing_there = record { lines = 0; head = 0; tail = 0; buf = replicate 1024 0 }

-- "ax", an erase, "b" and a return.
abbrev typed : Queue
typed = record { lines = 0; head = 5; tail = 0; buf = 97 ∷ 120 ∷ 127 ∷ 98 ∷ 13 ∷ replicate 1019 0 }

abbrev console : Tty
console = record {
  termios = canonical;
  pgrp = pos 0;
  stopped = false;
  read_q = typed;
  write_q = nothing_there;
  secondary = nothing_there;
}

abbrev drain : Tty → Tty
drain t = record t { write_q = record t.write_q { tail = t.write_q.head } }

console-IsTty : IsTty console
unfolding count_ends ring
console-IsTty = record {
  read = record {
    head = omega arith;
    tail = omega arith;
    whole = let z : ℕ = 0 in let n = length-replicate 1019 z in omega (arith, n);
  };
  cooked = record {
    head = omega arith;
    tail = omega arith;
    whole = (let z : ℕ = 0 in length-replicate 1024 z);
  };
  count = refl;
}

copy_to_cooked_lem_example :
    (taken : List ℕ) × Copied console taken ((copy_to_cooked drain console []).0)
copy_to_cooked_lem_example =
    copy_to_cooked_lem drain console [] (λ t. (refl, refl, refl)) console-IsTty
