-- ===== src/Kernel/Fork/Memory.antt =====
-- verify_area and copy_mem of linux-0.11/kernel/fork.c. What the segment descriptors say, the bases
-- and the limits, are arguments.
pub mod Areas
mod Tests
use linux_0_11_lab.Base.{
  Option, if◌then◌else◌, ltb, none, not, some, suc, zero, ℕ, ◌%◌, ◌*◌, ◌+◌, ◌/◌, ◌==◌, ◌^◌,
}
use linux_0_11_lab.Base.Int.{eqb_ℤ, ltb_ℤ, negsuc, pos, pos_part, wrap32, ℤ, ◌+ℤ◌, ◌-ℤ◌}
use linux_0_11_lab.Kernel.Task.{Task}
use linux_0_11_lab.Mm.Pages.{Memory, Result, killed, ok, panic}
use linux_0_11_lab.Mm.Tables.{copy_page_tables, free_page_tables, write_verify}

-- The loop of verify_area, `while (size > 0)`; `none` is a loop that goes on.
pub verify_loop : ℕ → ℤ → ℕ → Memory → Option (Result Memory)
verify_loop zero offset start m = if ltb_ℤ (pos 0) offset then none else some (ok m)
verify_loop (suc fuel) offset start m =
    if not (ltb_ℤ (pos 0) offset) then some (ok m) else elim (write_verify start m) [
      | ok m' ↦ verify_loop fuel (offset -ℤ pos 4096) ((start + 0x1000) % 2 ^ 32) m'
      | panic ↦ some panic
      | killed ↦ some killed
    ]

-- `base` is that of the data segment. The size is an `int` that may wrap, the address an `unsigned
-- long`, and the fuel is the number of bytes.
pub verify_area : ℕ → ℤ → ℕ → Memory → Option (Result Memory)
verify_area addr size base m =
    let offset = wrap32 (size +ℤ pos (addr % 4096)) in
    verify_loop (pos_part offset) offset ((addr / 4096 * 4096 + base) % 2 ^ 32) m

abbrev pub enomem : ℤ
enomem = negsuc 11

-- What the descriptors of the current task say.
pub record Segments : Type 0 where
  pub code_base : ℕ
  pub data_base : ℕ
  pub code_limit : ℕ
  pub data_limit : ℕ

-- The value, the new task, whose two segments begin at its start_code, and the memory.
pub copy_mem : ℕ → Segments → Task → Memory → Result (ℤ × Task × Memory)
copy_mem nr old p m =
    let new_base = nr * 0x4000000 % 2 ^ 32 in
    let p' : Task = record p { start_code = new_base } in
    if not (old.data_base == old.code_base)
    then panic
    else if ltb old.data_limit old.code_limit
    then panic
    else elim (copy_page_tables old.data_base new_base old.data_limit m) [
      | ok (value, m') ↦
          if eqb_ℤ value (pos 0)
          then ok (pos 0, p', m')
          else elim (free_page_tables new_base old.data_limit m') [
            | ok m'' ↦ ok (enomem, p', m'')
            | panic ↦ panic
            | killed ↦ killed
          ]
      | panic ↦ panic
      | killed ↦ killed
    ]
