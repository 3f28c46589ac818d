-- ===== src/Fs/Names.antt =====
-- Directories of linux-0.11/fs/namei.c: permission, match, find_entry and add_entry. A directory is
-- its size, its entries by number, and which of its blocks, of 64 entries each, bmap finds and
-- bread can read. A name is the
-- list of its bytes from the pointer on, with its length beside it.
pub mod Match
pub mod Entries
pub mod Trip
mod Tests
use linux_0_11_lab.Base.{
  Bool, List, Option, [], bit_and, false, get_or, if◌then◌else◌, leb, ltb, min, none, not,
  replicate, some, suc, true, zero, ℕ, ◌%◌, ◌&&◌, ◌*◌, ◌+◌, ◌/◌, ◌==◌, ◌^◌, ◌||◌, ◌∷◌,
}
use linux_0_11_lab.Fs.Bitmap.{Inode}

abbrev pub name_len : ℕ
name_len = 14

abbrev pub dir_entries_per_block : ℕ
dir_entries_per_block = 64

abbrev pub sizeof_entry : ℕ
sizeof_entry = 16

pub record DirEntry : Type 0 where
  pub inode_nr : ℕ
  pub name : List ℕ

pub record Directory : Type 0 where
  pub i_size : ℕ
  pub entry : ℕ → DirEntry
  pub mapped : ℕ → Bool
  pub readable : ℕ → Bool

abbrev pub has_block : Directory → ℕ → Bool
has_block dir k = dir.mapped k && dir.readable k

-- `euid` and `egid` are the current task's.
pub permission : ℕ → ℕ → Inode → ℕ → Bool
permission euid egid inode mask =
    let mode : ℕ =
      (if euid == inode.i_uid
        then inode.i_mode / 2 ^ 6
        else if egid == inode.i_gid
        then inode.i_mode / 2 ^ 3
        else inode.i_mode) in
    if not (inode.i_dev == 0) && inode.i_nlinks == 0
    then false
    else bit_and (bit_and mode mask) 7 == mask || euid == 0

-- `repe cmpsb` over `len` bytes, from byte `i` on. The callers of match have one byte at least.
pub same_bytes : ℕ → ℕ → List ℕ → List ℕ → Bool
same_bytes zero i name other = true
same_bytes (suc len) i name other =
    get_or name i 0 == get_or other i 0 && same_bytes len (i + 1) name other

pub match : ℕ → List ℕ → DirEntry → Bool
match len name de =
    if de.inode_nr == 0 || ltb name_len len
    then false
    else if ltb len name_len && not (get_or de.name len 0 == 0)
    then false
    else same_bytes len 0 name de.name

-- Whether the loops of find_entry and add_entry read another block before entry `i`. After a block
-- that could not be read `bh` is NULL, and the test goes by the word at address 0, which as the page
-- directory's first lies below any buffer: the loops read on.
abbrev pub at_block : ℕ → Bool
at_block i = i % dir_entries_per_block == 0 && not (i == 0)

-- The loop of find_entry over the numbers below `entries`, from `i` on; `none` is also the end of
-- the fuel, of which `entries` is enough.
unfoldable pub find_loop : ℕ → ℕ → ℕ → ℕ → List ℕ → Directory → Option ℕ
find_loop zero entries i len name dir = none
find_loop (suc fuel) entries i len name dir =
    let skipped = find_loop fuel entries (i + dir_entries_per_block) len name dir in
    let following = find_loop fuel entries (i + 1) len name dir in
    if leb entries i
    then none
    else if at_block i && not (has_block dir (i / dir_entries_per_block))
    then skipped
    else if match len name (dir.entry i)
    then some i
    else following

-- `b'.'`
abbrev pub dot : ℕ
dot = 46

abbrev pub is_dotdot : ℕ → List ℕ → Bool
is_dotdot len name = len == 2 && get_or name 0 0 == dot && get_or name 1 0 == dot

-- The directory that is searched and the number of the entry. `at_root` says that the directory is
-- the task's root; `covered` is the directory on which its file system is mounted, if it is the root
-- of one that is mounted. The number of entries is that of the directory before the exchange.
pub find_entry : Bool → Option Directory → Directory → ℕ → List ℕ → Directory × Option ℕ
find_entry at_root covered dir namelen name =
    let len : ℕ = min namelen name_len in
    let len' : ℕ = (if is_dotdot len name && at_root then 1 else len) in
    let dir' : Directory =
      (if is_dotdot len name && not at_root
        then elim covered [ none ↦ dir | some d ↦ d ]
        else dir) in
    let entries = dir.i_size / sizeof_entry in
    if namelen == 0
    then (dir, none)
    else if not (has_block dir' 0)
    then (dir', none)
    else (dir', find_loop entries entries 0 len' name dir')

abbrev pub put_entry : ℕ → DirEntry → Directory → Directory
put_entry i de dir = record dir { entry = λ j. if j == i then de else dir.entry j }

-- Block `k` is new: new_block cleared it.
abbrev pub with_block : ℕ → Directory → Directory
with_block k dir = record dir {
  entry = λ j.
      if j / dir_entries_per_block == k
      then record { inode_nr = 0; name = replicate name_len 0 }
      else dir.entry j;
  mapped = λ j. if j == k then true else dir.mapped j;
  readable = λ j. if j == k then true else dir.readable j;
}

-- `n` bytes for an entry's name, from byte `i` on: those of the name, then zeros.
pub pad_name : ℕ → ℕ → ℕ → List ℕ → List ℕ
pad_name zero i len name = []
pad_name (suc n) i len name =
    (if ltb i len then get_or name i 0 else 0) ∷ pad_name n (i + 1) len name

-- The loop of add_entry from entry `i` on; `can_create` says for which blocks create_block finds
-- room. `none` is also the end of the fuel, of which the number of entries and two is enough.
pub add_loop : ℕ → (ℕ → Bool) → ℕ → ℕ → List ℕ → Directory → Option (ℕ × Directory)
add_loop zero can_create i len name dir = none
add_loop (suc fuel) can_create i len name dir =
    let k = i / dir_entries_per_block in
    let dir1 : Directory = (if at_block i && not (dir.mapped k) then with_block k dir else dir) in
    let fresh = leb dir1.i_size (i * sizeof_entry) in
    let dir2 : Directory =
      (if fresh then record dir1 { i_size = (i + 1) * sizeof_entry } else dir1) in
    let new_entry : DirEntry = record { inode_nr = 0; name = pad_name name_len 0 len name } in
    let skipped = add_loop fuel can_create (i + dir_entries_per_block) len name dir1 in
    let following = add_loop fuel can_create (i + 1) len name dir1 in
    if at_block i && not (dir.mapped k) && not (can_create k)
    then none
    else if at_block i && not (dir1.readable k)
    then skipped
    else if fresh || (dir1.entry i).inode_nr == 0
    then some (i, put_entry i new_entry dir2)
    else following

-- The number of the entry, whose inode_nr the caller still has to set, and the directory.
pub add_entry : (ℕ → Bool) → Directory → ℕ → List ℕ → Option (ℕ × Directory)
add_entry can_create dir namelen name =
    if namelen == 0 || not (has_block dir 0)
    then none
    else add_loop (dir.i_size / sizeof_entry + 2) can_create 0 (min namelen name_len) name dir
