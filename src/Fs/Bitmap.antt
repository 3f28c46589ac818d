-- ===== src/Fs/Bitmap.antt =====
-- The inode and block bitmaps of linux-0.11/fs/bitmap.c. The data of a map's buffer is its string of
-- bits, as the bit instructions address it. The super block is the one that get_super finds; the
-- calls panic where there is none. The buffer of a freed block, and the count of the buffer
-- that getblk gives, are arguments; what is marked dirty is not kept.
pub mod Blocks
mod Tests
use linux_0_11_lab.Base.{
  Bool, List, Option, [], false, get_or, if◌then◌else◌, leb, ltb, none, not, replicate, set, some,
  true, ℕ, ◌%◌, ◌*◌, ◌+◌, ◌-◌, ◌/◌, ◌==◌, ◌||◌, ◌∷◌,
}

abbrev pub Bits : Type 0
Bits = List Bool

-- `struct super_block`, as far as the maps go; a map block that is not there is NULL.
pub record SuperBlock : Type 0 where
  pub s_ninodes : ℕ
  pub s_nzones : ℕ
  pub s_firstdatazone : ℕ
  pub s_imap : List (Option Bits)
  pub s_zmap : List (Option Bits)

abbrev pub map_bits : ℕ
map_bits = 8192

-- The number of the first 0 bit, the number of bits if there is none.
pub find_first_zero : Bits → ℕ
find_first_zero [] = 0
find_first_zero (true ∷ bits) = 1 + find_first_zero bits
find_first_zero (false ∷ bits) = 0

-- The first map block with a 0 bit, from number `i` on, and the bit.
pub find_map : ℕ → List (Option Bits) → Option (ℕ × ℕ)
find_map i [] = none
find_map i (none ∷ maps) = find_map (i + 1) maps
find_map i (some bits ∷ maps) =
    let rest = find_map (i + 1) maps in
    if ltb (find_first_zero bits) map_bits then some (i, find_first_zero bits) else rest

-- How a call ends: `fault` is a null pointer that is followed.
pub data Outcome {ℓ} (A : Type ℓ) : Type ℓ where
  ok : A → Outcome A
  panic : Outcome A
  fault : Outcome A

abbrev pub bits_of : List (Option Bits) → ℕ → Bits
bits_of maps i = elim (get_or maps i none) [ none ↦ [] | some bits ↦ bits ]

-- set_bit and clear_bit, in map block `i`.
abbrev pub put_bit : Bool → ℕ → ℕ → List (Option Bits) → List (Option Bits)
put_bit b i j maps = set maps i (some (set (bits_of maps i) j b))

-- The block, or 0, for a buffer with the count `b_count` from getblk.
pub new_block : ℕ → SuperBlock → Outcome (ℕ × SuperBlock)
new_block b_count sb = elim (find_map 0 sb.s_zmap) [
  | none ↦ ok (0, sb)
  | some (i, j) ↦
      let sb' : SuperBlock = record sb { s_zmap = put_bit true i j sb.s_zmap } in
      let block = j + i * map_bits + sb.s_firstdatazone - 1 in
      if get_or (bits_of sb.s_zmap i) j false
      then panic
      else if leb sb.s_nzones block
      then ok (0, sb')
      else if b_count == 1
      then ok (block, sb')
      else panic
]

-- `cached` is the count of the block's buffer, if it has one.
unfoldable pub free_block : Option ℕ → ℕ → SuperBlock → Outcome SuperBlock
free_block cached block sb =
    let n = block + 1 - sb.s_firstdatazone in
    let cleared : Outcome SuperBlock = elim (get_or sb.s_zmap (n / map_bits) none) [
      | none ↦ fault
      | some bits ↦
          if get_or bits (n % map_bits) false
          then ok (record sb { s_zmap = put_bit false (n / map_bits) (n % map_bits) sb.s_zmap })
          else panic
    ] in
    if ltb block sb.s_firstdatazone || leb sb.s_nzones block
    then panic
    else elim cached [ none ↦ cleared | some count ↦ if count == 1 then cleared else ok sb ]

-- `struct m_inode`, without the fields for waiting, locking and mounting.
pub record Inode : Type 0 where
  pub i_mode : ℕ
  pub i_size : ℕ
  pub i_zone : List ℕ
  pub i_dev : ℕ
  pub i_num : ℕ
  pub i_count : ℕ
  pub i_nlinks : ℕ
  pub i_uid : ℕ
  pub i_gid : ℕ
  pub i_dirt : Bool
  pub i_mtime : ℕ
  pub i_atime : ℕ
  pub i_ctime : ℕ

-- `memset(inode, 0, sizeof(*inode))`
abbrev pub zero_inode : Inode
zero_inode = record {
  i_mode = 0;
  i_size = 0;
  i_zone = replicate 9 0;
  i_dev = 0;
  i_num = 0;
  i_count = 0;
  i_nlinks = 0;
  i_uid = 0;
  i_gid = 0;
  i_dirt = false;
  i_mtime = 0;
  i_atime = 0;
  i_ctime = 0;
}

-- A bit that is 0 already is only reported.
pub free_inode : Inode → SuperBlock → Outcome (Inode × SuperBlock)
free_inode inode sb =
    if inode.i_dev == 0
    then ok (zero_inode, sb)
    else if ltb 1 inode.i_count || not (inode.i_nlinks == 0)
    then panic
    else if ltb inode.i_num 1 || ltb sb.s_ninodes inode.i_num
    then panic
    else elim (get_or sb.s_imap (inode.i_num / map_bits) none) [
      | none ↦ panic
      | some bits ↦ ok (
        zero_inode,
        record sb {
          s_imap = put_bit false (inode.i_num / map_bits) (inode.i_num % map_bits) sb.s_imap;
        },
      )
    ]

-- A new inode of device `dev` for a task with the ids `euid` and `egid`, at the time `now`; none if
-- the map is full. The inode that get_empty_inode found is given back by iput in that case.
pub new_inode : ℕ → ℕ → ℕ → ℕ → SuperBlock → Outcome (Option Inode × SuperBlock)
new_inode dev euid egid now sb = elim (find_map 0 sb.s_imap) [
  | none ↦ ok (none, sb)
  | some (i, j) ↦
      if ltb sb.s_ninodes (j + i * map_bits)
      then ok (none, sb)
      else if get_or (bits_of sb.s_imap i) j false
      then panic
      else ok (
        some (record zero_inode {
          i_dev = dev;
          i_num = j + i * map_bits;
          i_count = 1;
          i_nlinks = 1;
          i_uid = euid;
          i_gid = egid;
          i_dirt = true;
          i_mtime = now;
          i_atime = now;
          i_ctime = now;
        }),
        record sb { s_imap = put_bit true i j sb.s_imap },
      )
]
