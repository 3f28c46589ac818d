-- ===== src/Kernel/Output.antt =====
-- Terminal output: the loop of tty_write in linux-0.11/kernel/chr_drv/tty_io.c that fills the write
-- queue, up to where the function of the terminal and schedule take over.
pub mod Fill
mod Tests
use linux_0_11_lab.Base.{
  Bool, List, [], if◌then◌else◌, leb, not, suc, zero, ℕ, ◌&&◌, ◌-◌, ◌==◌, ◌∷◌,
}
use linux_0_11_lab.Kernel.Tty.{Queue, full, putch}

-- The flags of c_oflag.
pub record Oflags : Type 0 where
  pub opost : Bool
  pub ocrnl : Bool
  pub onlret : Bool
  pub onlcr : Bool
  pub olcuc : Bool

abbrev toupper : ℕ → ℕ
toupper c = if leb 97 c && leb c 122 then c - 32 else c

abbrev exchanged : Oflags → ℕ → ℕ
exchanged m c = if c == 13 && m.ocrnl then 10 else if c == 10 && m.onlret then 13 else c

-- `c == '\n' && !cr_flag && O_NLCR(tty)`
abbrev pub needs_cr : Oflags → Bool → ℕ → Bool
needs_cr m cr_flag c = not cr_flag && (m.opost && (exchanged m c == 10 && m.onlcr))

abbrev pub put_out : Oflags → ℕ → ℕ
put_out m c = if m.opost then if m.olcuc then toupper (exchanged m c) else exchanged m c else c

-- What the loop leaves: cr_flag, the bytes that are left, and the queue.
pub record Filled : Type 0 where
  pub cr_flag : Bool
  pub bytes : List ℕ
  pub write_q : Queue

-- `while (count > 0 && !FULL(tty->write_q))`
pub fill_loop : ℕ → Oflags → Bool → List ℕ → Queue → Filled
fill_loop zero m cr_flag bytes q = record { cr_flag = cr_flag; bytes = bytes; write_q = q }
fill_loop (suc fuel) m cr_flag [] q = record { cr_flag = cr_flag; bytes = []; write_q = q }
fill_loop (suc fuel) m cr_flag (c ∷ cs) q =
    let cr = needs_cr m cr_flag c in
    let rest =
      fill_loop fuel m cr (if cr then c ∷ cs else cs) (putch (if cr then 13 else put_out m c) q) in
    if full q then record { cr_flag = cr_flag; bytes = c ∷ cs; write_q = q } else rest

-- Each pass puts a character into the queue, which has 1024 places.
pub fill_queue : Oflags → Bool → List ℕ → Queue → Filled
fill_queue m cr_flag bytes q = fill_loop 1024 m cr_flag bytes q
