-- ===== src/Fs/Zones/Tests.antt =====
-- The blocks of a file at concrete inputs.
use linux_0_11_lab.Base.{
  [], arith, false, inl, inr, length-replicate, refl, replicate, some, suc, true, zero, ℕ, ◌∷◌, ◌≡◌,
  ◌≢◌, ◌⊎◌,
}
use linux_0_11_lab.Fs.Bitmap.{Bits, SuperBlock, ok, zero_inode}
use linux_0_11_lab.Fs.Bitmap.Blocks.{AreMaps}
use linux_0_11_lab.Fs.Zones.{File, bmap, create_block}
use linux_0_11_lab.Fs.Zones.Allocate.{in_use}
use linux_0_11_lab.Fs.Zones.Create.{create_block-bmap}
use linux_0_11_lab.Fs.Zones.Lookup.{IsFile}
use linux_0_11_lab.Fs.Zones.Missing.{Missing}

-- Bit 0 of the map is set, and that of block 20, the first of the data zone.
abbrev first_used : Bits
first_used = true ∷ true ∷ replicate 8190 false

abbrev disk : SuperBlock
disk = record {
  s_ninodes = 100;
  s_nzones = 1440;
  s_firstdatazone = 20;
  s_imap = [];
  s_zmap = some first_used ∷ [];
}

-- Zone 8 of the file is block 20, whose words are 0.
abbrev sparse_file : File
sparse_file = record {
  inode = record zero_inode { i_zone = 0 ∷ 0 ∷ 0 ∷ 0 ∷ 0 ∷ 0 ∷ 0 ∷ 0 ∷ 20 ∷ [] };
  volume = record { sb = disk; words = λ b j. 0; readable = λ b. true };
}

disk-AreMaps : AreMaps disk.s_zmap
disk-AreMaps zero bits e =
    let z : first_used ≡ bits = cc e in
    rw (← z) (let n = length-replicate 8190 false in omega (arith, n))
disk-AreMaps (suc i) bits e = absurd (cc e)

sparse_file-IsFile : IsFile sparse_file
sparse_file-IsFile = record {
  volume = record { whole = disk-AreMaps; first = omega arith; bit_0 = refl; short = omega arith };
  zones = refl;
  single = inl refl;
  double = inr refl;
  second = λ nz j. inl refl;
}

create_block-bmap_example :
    (r : ℕ) × (f' : File) × (create_block 7 1000 sparse_file ≡ ok (r, f'))
    × (bmap 7 1000 f' ≡ ok (r, f'))
    × (((r' : ℕ)
          → bmap 7 1000 sparse_file ≡ ok (r', sparse_file)
          → r' ≢ 0
          → (r ≡ r') × (f' ≡ sparse_file))
        × (bmap 7 1000 sparse_file ≡ ok (0, sparse_file)
            → ((r ≡ 0) × Missing 1000 sparse_file f')
              ⊎ ((in_use disk r ≡ false) × (in_use f'.volume.sb r ≡ true))))
create_block-bmap_example = create_block-bmap 7 1000 sparse_file sparse_file-IsFile (omega arith)
