-- ===== src/Fs/Zones.antt =====
-- The blocks of a file: _bmap of linux-0.11/fs/inode.c, over new_block of fs/bitmap.c. A block of the
-- disk that bread can read is its 512 words; a block that has just been allocated has no other user.
pub mod Allocate
pub mod Lookup
pub mod Steps
pub mod Kept
pub mod Missing
pub mod Create
pub mod Tree
pub mod Grown
pub mod Extends
mod Tests
use linux_0_11_lab.Base.{
  Bool, false, get_or, if◌then◌else◌, leb, ltb, not, set, true, ℕ, ◌%◌, ◌&&◌, ◌*◌, ◌+◌, ◌-◌, ◌/◌,
  ◌==◌, ◌^◌, ◌||◌,
}
use linux_0_11_lab.Fs.Bitmap.{Inode, Outcome, SuperBlock, fault, new_block, ok, panic}

pub record Volume : Type 0 where
  pub sb : SuperBlock
  pub words : ℕ → ℕ → ℕ
  pub readable : ℕ → Bool

-- An inode, and the file system that it is on.
pub record File : Type 0 where
  pub inode : Inode
  pub volume : Volume

abbrev pub zone : ℕ → File → ℕ
zone k f = get_or f.inode.i_zone k 0

-- new_block, which clears what it allocates.
pub allocate : Volume → Outcome (ℕ × Volume)
allocate v = elim (new_block 1 v.sb) [
  | panic ↦ panic
  | fault ↦ fault
  | ok r ↦
      let (block, sb) = r in
      let cleared : ℕ → ℕ → ℕ =
        (if block == 0 then v.words else λ b j. if b == block then 0 else v.words b j) in
      ok (block, record v { sb = sb; words = cleared })
]

-- i_zone is of unsigned shorts.
abbrev pub put_zone : ℕ → ℕ → ℕ → Inode → Inode
put_zone now k stored inode =
    let zones = set inode.i_zone k stored in
    if stored == 0
    then record inode { i_zone = zones }
    else record inode { i_zone = zones; i_ctime = now; i_dirt = true }

-- `if (create && !inode->i_zone[k])`, and i_zone[k] behind it.
unfoldable pub need_zone : Bool → ℕ → ℕ → File → Outcome (ℕ × File)
need_zone create now k f =
    if not (create && zone k f == 0) then ok (zone k f, f) else elim (allocate f.volume) [
      | panic ↦ panic
      | fault ↦ fault
      | ok r ↦
          let (block, v) = r in
          ok
            (block % 2 ^ 16, record { inode = put_zone now k (block % 2 ^ 16) f.inode; volume = v })
    ]

abbrev pub put_word : ℕ → ℕ → ℕ → Volume → Volume
put_word b j w v = record v { words = λ c i. if c == b && i == j then w else v.words c i }

-- `if (create && !i)` for word `j` of block `b`, and `i` behind it.
pub need_word : Bool → ℕ → ℕ → File → Outcome (ℕ × File)
need_word create b j f =
    let i = f.volume.words b j in
    if not (create && i == 0) then ok (i, f) else elim (allocate f.volume) [
      | panic ↦ panic
      | fault ↦ fault
      | ok r ↦
          let (block, v) = r in
          ok
            (block, record f { volume = if block == 0 then v else put_word b j (block % 2 ^ 16) v })
    ]

-- The same in block `b` of words, if there is one and it can be read.
pub in_block : Bool → ℕ → ℕ → File → Outcome (ℕ × File)
in_block create b j f =
    if b == 0 || not (f.volume.readable b) then ok (0, f) else need_word create b j f

unfoldable pub and_then {ℓ ℓ'} :
    {A : Type ℓ} {B : Type ℓ'} → Outcome A → (A → Outcome B) → Outcome B
and_then (ok a) g = g a
and_then panic g = panic
and_then fault g = fault

unfoldable pub _bmap : Bool → ℕ → ℕ → File → Outcome (ℕ × File)
_bmap create now block f =
    if leb (7 + 512 + 512 * 512) block
    then panic
    else if ltb block 7
    then need_zone create now block f
    else if ltb (block - 7) 512
    then and_then (need_zone create now 7 f) (λ r. in_block create r.0 (block - 7) r.1)
    else and_then (need_zone create now 8 f) (λ r.
      and_then (in_block create r.0 ((block - 519) / 512) r.1)
        (λ s. in_block create s.0 ((block - 519) % 512) s.1))

abbrev pub bmap : ℕ → ℕ → File → Outcome (ℕ × File)
bmap now block f = _bmap false now block f

abbrev pub create_block : ℕ → ℕ → File → Outcome (ℕ × File)
create_block now block f = _bmap true now block f
