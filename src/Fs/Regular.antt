-- ===== src/Fs/Regular.antt =====
-- Reading and writing files: linux-0.11/fs/file_dev.c, over the blocks of Fs.Zones, and the branch for
-- files of sys_read in linux-0.11/fs/read_write.c. A block is 1024 bytes, two to each of its words. The
-- bytes that go to or come from the caller's buffer are lists. Positions and counts are below 2 ^ 31.
pub mod Content
pub mod Reading
pub mod Bytes
pub mod Placed
pub mod Created
pub mod Passed
pub mod Wrote
pub mod Writing
pub mod Trip
mod Tests
use linux_0_11_lab.Base.{
  Bool, List, [], drop, if◌then◌else◌, length, ltb, min, not, replicate, suc, take, true, zero, ℕ,
  ◌%◌, ◌&&◌, ◌*◌, ◌++◌, ◌+◌, ◌-◌, ◌/◌, ◌==◌, ◌||◌, ◌∷◌,
}
use linux_0_11_lab.Base.Int.{negsuc, pos, ℤ}
use linux_0_11_lab.Fs.Bitmap.{Outcome, ok}
use linux_0_11_lab.Fs.Zones.{File, Volume, and_then, bmap, create_block, put_word}

-- struct file: the position, and O_APPEND of the flags.
pub record Opened : Type 0 where
  pub f_pos : ℕ
  pub o_append : Bool

abbrev pub block_size : ℕ
block_size = 1024

-- `bh->b_data[k]`
abbrev pub byte_at : ℕ → ℕ → Volume → ℕ
byte_at b k v = v.words b (k / 2) / (if k % 2 == 0 then 1 else 256) % 256

-- The word whose byte `k % 2` is set to `c`.
abbrev pub with_byte : ℕ → ℕ → ℕ → ℕ
with_byte k c w = if k % 2 == 0 then w / 256 * 256 + c % 256 else c % 256 * 256 + w % 256

-- `bh->b_data[k] = c`
abbrev pub put_byte : ℕ → ℕ → ℕ → Volume → Volume
put_byte b k c v = put_word b (k / 2) (with_byte k c (v.words b (k / 2))) v

-- `while (chars-->0) put_fs_byte(*(p++),buf++)`
pub get_bytes : ℕ → ℕ → ℕ → Volume → List ℕ
get_bytes b k zero v = []
get_bytes b k (suc chars) v = byte_at b k v ∷ get_bytes b (k + 1) chars v

-- `while (c-->0) *(p++) = get_fs_byte(buf++)`
pub put_bytes : ℕ → ℕ → List ℕ → Volume → Volume
put_bytes b k [] v = v
put_bytes b k (c ∷ cs) v = put_bytes b (k + 1) cs (put_byte b k c v)

-- What is left of the loops: the fuel is the number of bytes, as each pass moves at least one.
-- `while (left)` of file_read: the bytes that it gives. Their number is count - left behind the loop.
pub read_loop : ℕ → ℕ → File → ℕ → ℕ → Outcome (List ℕ)
read_loop zero now f f_pos left = ok []
read_loop (suc fuel) now f f_pos zero = ok []
read_loop (suc fuel) now f f_pos (suc left_1) = and_then (bmap now (f_pos / block_size) f) (λ r.
    let (nr, g) = r in
    if not (nr == 0) && not (g.volume.readable nr)
    then ok []
    else let offset : ℕ = f_pos % block_size in
      let chars : ℕ = min (block_size - offset) (suc left_1) in
      and_then (read_loop fuel now g (f_pos + chars) (suc left_1 - chars)) (λ rest.
        ok ((if nr == 0 then replicate chars 0 else get_bytes nr offset chars g.volume) ++ rest)))

abbrev pub with_atime : ℕ → File → File
with_atime now f = record f { inode = record f.inode { i_atime = now } }

-- ERROR is 99.
pub file_read : ℕ → File → Opened → ℕ → Outcome (ℤ × List ℕ × File × Opened)
file_read now f filp count =
    if count == 0
    then ok (pos 0, [], f, filp)
    else and_then (read_loop count now f filp.f_pos count) (λ bytes. ok (
      (if length bytes == 0 then negsuc 98 else pos (length bytes)),
      bytes,
      with_atime now f,
      record filp { f_pos = filp.f_pos + length bytes },
    ))

-- sys_read for a directory or a regular file.
pub read_file : ℕ → File → Opened → ℕ → Outcome (ℤ × List ℕ × File × Opened)
read_file now f filp count =
    let count' : ℕ =
      (if ltb f.inode.i_size (count + filp.f_pos) then f.inode.i_size - filp.f_pos else count) in
    if count' == 0 then ok (pos 0, [], f, filp) else file_read now f filp count'

-- `if (pos > inode->i_size)`
abbrev pub with_size : ℕ → File → File
with_size p f =
    if ltb f.inode.i_size p
    then record f { inode = record f.inode { i_size = p; i_dirt = true } }
    else f

abbrev pub with_volume : Volume → File → File
with_volume v f = record f { volume = v }

-- `while (i<count)` of file_write on what is left of the buffer: how many bytes it has written.
pub write_loop : ℕ → ℕ → List ℕ → ℕ → File → Outcome (ℕ × File)
write_loop zero now cs p f = ok (0, f)
write_loop (suc fuel) now [] p f = ok (0, f)
write_loop (suc fuel) now (c0 ∷ cs1) p f = and_then (create_block now (p / block_size) f) (λ r.
    let (block, g) = r in
    if block == 0 || not (g.volume.readable block)
    then ok (0, g)
    else let offset : ℕ = p % block_size in
      let c : ℕ = min (block_size - offset) (length (c0 ∷ cs1)) in
      let sized = with_size (p + c) g in
      let done = with_volume (put_bytes block offset (take c (c0 ∷ cs1)) sized.volume) sized in
      and_then (write_loop fuel now (drop c (c0 ∷ cs1)) (p + c) done)
        (λ rest. ok (c + rest.0, rest.1)))

-- The position that a write starts at.
abbrev pub start : File → Opened → ℕ
start f filp = if filp.o_append then f.inode.i_size else filp.f_pos

pub file_write : ℕ → File → Opened → List ℕ → Outcome (ℤ × File × Opened)
file_write now f filp buf =
    let p : ℕ = start f filp in
    and_then (write_loop (length buf) now buf p f) (λ r.
      let (i, g) = r in
      let h = record g { inode = record g.inode { i_mtime = now } } in
      ok (
        (if i == 0 then negsuc 0 else pos i),
        (if filp.o_append then h else record h { inode = record h.inode { i_ctime = now } }),
        (if filp.o_append then filp else record filp { f_pos = p + i }),
      ))
