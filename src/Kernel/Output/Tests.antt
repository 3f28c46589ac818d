-- ===== src/Kernel/Output/Tests.antt =====
-- Terminal output at concrete bytes.
use linux_0_11_lab.Base.{List, [], arith, false, length-replicate, replicate, true, ℕ, ◌∷◌}
use linux_0_11_lab.Kernel.Output.{Oflags, fill_queue}
use linux_0_11_lab.Kernel.Output.Fill.{IsFilled, fill_lem}
use linux_0_11_lab.Kernel.Tty.{Queue}

abbrev console_flags : Oflags
console_flags = record { opost = true; ocrnl = false; onlret = false; onlcr = true; olcuc = false }

abbrev write_q : Queue
write_q = record { lines = 0; head = 0; tail = 0; buf = replicate 1024 0 }

-- "a", a new line and "b".
fill_lem_example :
    (out : List ℕ) × IsFilled console_flags false
      (97 ∷ 10 ∷ 98 ∷ [])
      write_q
      out
      (fill_queue console_flags false (97 ∷ 10 ∷ 98 ∷ []) write_q)
fill_lem_example = fill_lem console_flags false (97 ∷ 10 ∷ 98 ∷ []) write_q (record {
  head = omega arith;
  tail = omega arith;
  whole = (let z : ℕ = 0 in length-replicate 1024 z);
})
