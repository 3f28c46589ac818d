-- ===== src/Fs/Pipe.antt =====
-- Pipes: one pass of the loops of read_pipe and write_pipe, on the page of a pipe. The inode holds
-- the head and the tail of the ring in i_zone[0] and i_zone[1], and the page in i_size. sleep_on and
-- wake_up are outside: a pass that finds nothing to do returns `none`, where the code sleeps or
-- gives up.
pub mod Ring
pub mod Queue
mod Tests
use linux_0_11_lab.Base.{
  List, Option, [], drop, get_or, if◌then◌else◌, length, min, none, set, some, suc, zero, ℕ, ◌%◌,
  ◌++◌, ◌+◌, ◌-◌, ◌==◌, ◌^◌, ◌||◌, ◌∷◌,
}

abbrev pub page_size : ℕ
page_size = 4096

pub record Pipe : Type 0 where
  pub head : ℕ
  pub tail : ℕ
  pub page : List ℕ

-- PIPE_SIZE: `(head - tail) & (PAGE_SIZE - 1)`, in 32 bits.
abbrev pub pipe_size : Pipe → ℕ
pipe_size p = (p.head + 2 ^ 32 - p.tail) % 2 ^ 32 % page_size

-- `while (chars-->0) put_fs_byte(page[size++], buf++)`
pub get_bytes : ℕ → ℕ → List ℕ → List ℕ
get_bytes zero size page = []
get_bytes (suc chars) size page = get_or page size 0 ∷ get_bytes chars (size + 1) page

-- `while (chars-->0) page[size++] = get_fs_byte(buf++)`
pub put_bytes : ℕ → ℕ → List ℕ → List ℕ → List ℕ
put_bytes zero size buf page = page
put_bytes (suc chars) size [] page = page
put_bytes (suc chars) size (b ∷ buf) page = put_bytes chars (size + 1) buf (set page size b)

-- The number of characters that one pass moves.
abbrev pub chars_of : ℕ → ℕ → ℕ → ℕ
chars_of room count size = min (min room count) size

-- One pass of read_pipe for `count` bytes: the bytes that it gives, and the pipe.
pub read_pass : ℕ → Pipe → Option (List ℕ × Pipe)
read_pass count p =
    let chars = chars_of (page_size - p.tail) count (pipe_size p) in
    if count == 0 || pipe_size p == 0
    then none
    else some (get_bytes chars p.tail p.page, record p { tail = (p.tail + chars) % page_size })

-- One pass of write_pipe for the bytes `buf`: how many it takes, and the pipe.
pub write_pass : List ℕ → Pipe → Option (ℕ × Pipe)
write_pass buf p =
    let space = page_size - 1 - pipe_size p in
    let chars = chars_of (page_size - p.head) (length buf) space in
    if length buf == 0 || space == 0
    then none
    else some (
      chars,
      record p { head = (p.head + chars) % page_size; page = put_bytes chars p.head buf p.page },
    )

-- The loop of read_pipe up to the point where it returns or would sleep: the bytes, what is left
-- of the count, and the pipe.
pub read_passes : ℕ → ℕ → Pipe → List ℕ × ℕ × Pipe
read_passes zero count p = ([], count, p)
read_passes (suc fuel) count p = elim (read_pass count p) [
  | none ↦ ([], count, p)
  | some (bytes, p') ↦
      let (more, left, q) = read_passes fuel (count - length bytes) p' in (bytes ++ more, left, q)
]

-- The loop of write_pipe likewise: the number of bytes written, the bytes that are left, and the
-- pipe.
pub write_passes : ℕ → List ℕ → Pipe → ℕ × List ℕ × Pipe
write_passes zero buf p = (0, buf, p)
write_passes (suc fuel) buf p = elim (write_pass buf p) [
  | none ↦ (0, buf, p)
  | some (chars, p') ↦
      let (more, left, q) = write_passes fuel (drop chars buf) p' in (chars + more, left, q)
]
