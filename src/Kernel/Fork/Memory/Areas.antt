-- ===== src/Kernel/Fork/Memory/Areas.antt =====
-- Which pages verify_area looks at.
use linux_0_11_lab.Base.{
  arith, false, inl, inr, ltb, refl, some, suc, true, zero, ℕ, ◌%◌, ◌*◌, ◌+◌, ◌-◌, ◌/◌, ◌<◌, ◌^◌,
  ◌≡◌, ◌≤◌, ◌⊎◌,
}
use linux_0_11_lab.Base.Int.{
  ltb_ℤ, negsuc, pos, pos-add, pos_part, wrap32-past, wrap32-small, ℤ, ◌-ℤ◌,
}
use linux_0_11_lab.Kernel.Fork.Memory.{verify_area, verify_loop}
use linux_0_11_lab.Mm.Pages.{Memory, Result, killed, ok, panic}
use linux_0_11_lab.Mm.Tables.{write_verify}

-- write_verify for `n` pages from `start` on, until one stops the kernel or the task.
pub write_pages : ℕ → ℕ → Memory → Result Memory
write_pages zero start m = ok m
write_pages (suc n) start m = elim (write_verify start m) [
  | ok m' ↦ write_pages n ((start + 0x1000) % 2 ^ 32) m'
  | panic ↦ panic
  | killed ↦ killed
]

Result-cases : (r : Result Memory) → ((m : Memory) × (r ≡ ok m)) ⊎ (r ≡ panic) ⊎ (r ≡ killed)
Result-cases (ok m) = inl (m, refl)
Result-cases panic = inr (inl refl)
Result-cases killed = inr (inr refl)

pos_part-sub : (a : ℤ) (n : ℕ) → pos_part (a -ℤ pos n) ≡ pos_part a - n
unfolding ◌-ℤ◌
pos_part-sub (pos k) n = ground arith
pos_part-sub (negsuc k) n = ground arith

write_pages-step :
    (n start : ℕ) (m m' : Memory)
    → write_verify start m ≡ ok m'
    → write_pages (suc n) start m ≡ write_pages n ((start + 0x1000) % 2 ^ 32) m'
unfolding write_pages
write_pages-step n start m m' w = rw (w, write_pages) refl

module _ (n start : ℕ) (m : Memory) where
  stop_panic : write_verify start m ≡ panic → write_pages (suc n) start m ≡ panic
  unfolding write_pages
  stop_panic w = rw (w, write_pages) refl

  stop_killed : write_verify start m ≡ killed → write_pages (suc n) start m ≡ killed
  unfolding write_pages
  stop_killed w = rw (w, write_pages) refl

verify_loop_lem :
    (n fuel offset start : ℕ) (a : ℤ) (m : Memory)
    → n ≡ (offset + 4095) / 4096
    → n ≤ fuel
    → pos_part a ≡ offset
    → verify_loop fuel a start m ≡ some (write_pages n start m)
unfolding verify_loop write_pages
verify_loop_lem zero zero offset start a m e h s =
    let z : ltb_ℤ (pos 0) a ≡ false = ground (arith, e, s) in rw z refl
verify_loop_lem zero (suc fuel) offset start a m e h s =
    let z : ltb_ℤ (pos 0) a ≡ false = ground (arith, e, s) in rw z refl
verify_loop_lem (suc n) zero offset start a m e h s = absurd (omega arith)
verify_loop_lem (suc n) (suc fuel) offset start a m e h s =
    let z : ltb_ℤ (pos 0) a ≡ true = ground (arith, e, s) in
    let less = pos_part-sub a 4096 in
    elim (Result-cases (write_verify start m)) [
      | inl (m', w) ↦
          rw (z, w, write_pages-step n start m m' w)
            (verify_loop_lem n fuel (offset - 4096) ((start + 0x1000) % 2 ^ 32) (a -ℤ pos 4096) m'
              (omega arith) (omega arith) (omega (arith, less, s)))
      | inr (inl w) ↦ rw (z, w, stop_panic n start m w) refl
      | inr (inr w) ↦ rw (z, w, stop_killed n start m w) refl
    ]

-- verify_area of at least one byte, where the size and the offset in the page make a positive `int`,
-- ends, and looks in order at exactly the pages from that of the first byte to that of the last one.
pub verify_area_pages :
    (addr size base : ℕ) (m : Memory)
    → 1 ≤ size
    → addr % 4096 + size < 2 ^ 31
    → verify_area addr (pos size) base m
      ≡ some (
          write_pages
            ((addr + size - 1) / 4096 - addr / 4096 + 1)
            ((addr / 4096 * 4096 + base) % 2 ^ 32)
            m)
unfolding verify_area
verify_area_pages addr size base m h l =
    let a = pos-add size (addr % 4096) in
    let e = wrap32-small (pos (size + addr % 4096)) (omega arith) (omega arith) in
    rw (a, e)
      (verify_loop_lem ((addr + size - 1) / 4096 - addr / 4096 + 1) (size + addr % 4096)
        (size + addr % 4096) ((addr / 4096 * 4096 + base) % 2 ^ 32) (pos (size + addr % 4096)) m
        (omega arith) (omega arith) refl)

-- Where the sum passes the greatest `int`, verify_area looks at no page.
verify_area_wraps :
    (addr size base : ℕ) (m : Memory)
    → size < 2 ^ 31
    → 2 ^ 31 ≤ addr % 4096 + size
    → verify_area addr (pos size) base m ≡ some (ok m)
unfolding verify_area verify_loop
verify_area_wraps addr size base m h l =
    let a = pos-add size (addr % 4096) in
    let e = wrap32-past (size + addr % 4096) (omega arith) (omega arith) in
    let z : ltb (0 + suc (2 ^ 32 - 1 - (size + addr % 4096))) 0 ≡ false = ground arith in
    rw (a, e, z) refl
