-- ===== src/Fs/Zones/Lookup.antt =====
-- What bmap finds.
use linux_0_11_lab.Base.{
  Bool-cases, arith, false, if◌then◌else◌, inl, inr, leb, length, ltb, not, refl, true, ℕ, ◌%◌, ◌*◌,
  ◌+◌, ◌-◌, ◌/◌, ◌<◌, ◌==◌, ◌||◌, ◌≡◌, ◌≢◌, ◌≤◌, ◌⊎◌,
}
use linux_0_11_lab.Fs.Bitmap.{ok}
use linux_0_11_lab.Fs.Zones.{File, _bmap, and_then, bmap, in_block, need_word, need_zone, zone}
use linux_0_11_lab.Fs.Zones.Allocate.{IsVolume, in_use}

-- The word of a block; 0 without a block, or if it cannot be read.
abbrev pub word_in : ℕ → ℕ → File → ℕ
word_in b j f = if b == 0 || not (f.volume.readable b) then 0 else f.volume.words b j

-- The block with number `n` of a file, 0 if there is none: zones 0 to 6 are its first blocks, zone 7
-- has the numbers of the next 512, and zone 8 those of 512 blocks that each have 512 more.
unfoldable pub lookup : ℕ → File → ℕ
lookup n f =
    if ltb n 7
    then zone n f
    else if ltb n 519
    then word_in (zone 7 f) (n - 7) f
    else word_in (word_in (zone 8 f) ((n - 519) / 512) f) ((n - 519) % 512) f

pub lookup_double :
    (n : ℕ) (f : File)
    → 519 ≤ n
    → lookup n f ≡ word_in (word_in (zone 8 f) ((n - 519) / 512) f) ((n - 519) % 512) f
unfolding lookup
lookup_double n f low =
    let u : ltb n 7 ≡ false = ground arith in
    let w : ltb n 519 ≡ false = ground arith in rw (u, w) refl

-- The blocks that bmap reads on its way are in use, and the one of zone 8 does not name itself.
pub record IsFile (f : File) : Type 0 where
  pub volume : IsVolume f.volume
  pub zones : length f.inode.i_zone ≡ 9
  pub single : (zone 7 f ≡ 0) ⊎ (in_use f.volume.sb (zone 7 f) ≡ true)
  pub double : (zone 8 f ≡ 0) ⊎ (in_use f.volume.sb (zone 8 f) ≡ true)
  pub second :
      zone 8 f ≢ 0
      → (j : ℕ)
      → (f.volume.words (zone 8 f) j ≡ 0)
        ⊎ ((in_use f.volume.sb (f.volume.words (zone 8 f) j) ≡ true)
            × (f.volume.words (zone 8 f) j ≢ zone 8 f))

in_block_read : (b j : ℕ) (f : File) → in_block false b j f ≡ ok (word_in b j f, f)
unfolding in_block need_word
in_block_read b j f = elim (Bool-cases (b == 0 || not (f.volume.readable b))) [
  | inl t ↦ rw t refl
  | inr t ↦ rw t refl
]

-- bmap changes nothing and gives the block that lookup finds.
pub bmap_lem : (now n : ℕ) (f : File) → n < 7 + 512 + 512 * 512 → bmap now n f ≡ ok (lookup n f, f)
unfolding lookup _bmap need_zone and_then
bmap_lem now n f l =
    let t : leb (7 + 512 + 512 * 512) n ≡ false = ground arith in
    elim (Bool-cases (ltb n 7)) [
      | inl u ↦ rw (t, u) refl
      | inr u ↦ elim (Bool-cases (ltb (n - 7) 512)) [
        | inl w ↦
            let w' : ltb n 519 ≡ true = ground (arith, w) in
            rw (t, u, w, w') (in_block_read (zone 7 f) (n - 7) f)
        | inr w ↦
            let w' : ltb n 519 ≡ false = ground (arith, w) in
            rw (t, u, w, w', in_block_read (zone 8 f) ((n - 519) / 512) f)
              (in_block_read (word_in (zone 8 f) ((n - 519) / 512) f) ((n - 519) % 512) f)
      ]
    ]
