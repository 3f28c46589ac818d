-- ===== src/Fs/Truncate/Tests.antt =====
-- truncate of a concrete file.
use linux_0_11_lab.Base.{
  Bool-cases, Option, [], arith, false, if◌then◌else◌, inl, inr, length-replicate, ltb, none, refl,
  replicate, some, suc, sym, true, zero, ℕ, ◌&&◌, ◌==◌, ◌∙◌, ◌∷◌, ◌≡◌, ◌⊎◌,
}
use linux_0_11_lab.Fs.Bitmap.{Bits, SuperBlock, ok, zero_inode}
use linux_0_11_lab.Fs.Bitmap.Blocks.{AreMaps}
use linux_0_11_lab.Fs.Regular.Reading.{get_or-replicate}
use linux_0_11_lab.Fs.Truncate.{truncate}
use linux_0_11_lab.Fs.Truncate.Stage.{IsAlone}
use linux_0_11_lab.Fs.Truncate.Whole.{Truncated, truncate_lem}
use linux_0_11_lab.Fs.Zones.{File}
use linux_0_11_lab.Fs.Zones.Tree.{IsTree, Node, name, top, word1, word2, word3}

-- Bit 0 of the map is set, and that of block 20, the first of the data zone.
abbrev first_used : Bits
first_used = true ∷ true ∷ replicate 8190 false

abbrev disk : SuperBlock
disk = record {
  s_ninodes = 100;
  s_nzones = 1440;
  s_firstdatazone = 20;
  s_imap = [];
  s_zmap = some first_used ∷ [];
}

-- A regular file of one block, block 20.
abbrev text_file : File
text_file = record {
  inode = record zero_inode { i_mode = 33188; i_size = 700; i_zone = 20 ∷ replicate 8 0 };
  volume = record {
    sb = disk;
    words = λ b j. if b == 20 && ltb j 512 then 16961 else 0;
    readable = λ b. true;
  };
}

abbrev not_cached : ℕ → Option ℕ
not_cached b = none

disk-AreMaps : AreMaps disk.s_zmap
disk-AreMaps zero bits e =
    let z : first_used ≡ bits = cc e in
    rw (← z) (let n = length-replicate 8190 false in omega (arith, n))
disk-AreMaps (suc i) bits e = absurd (cc e)

names : (x : Node) → (name x text_file ≡ 0) ⊎ ((x ≡ top 0) × (name x text_file ≡ 20))
names (top zero) = inr (refl, refl)
names (top (suc k)) = inl (get_or-replicate 8 0 k)
names (word1 i) = inl refl
names (word2 j) = inl refl
names (word3 j l) = inl refl

text_file-IsTree : IsTree text_file
text_file-IsTree = record {
  volume = record { whole = disk-AreMaps; first = omega arith; bit_0 = refl; short = omega arith };
  zones = refl;
  used = λ x. elim (names x) [ inl z ↦ inl z | inr h ↦ inr (rw h.1 refl) ];
  distinct = λ x y nz e. elim (names x) [
    | inl z ↦ absurd (nz z)
    | inr h ↦ elim (names y) [ inl z ↦ absurd (nz (e ∙ z)) | inr h' ↦ h.0 ∙ sym h'.0 ]
  ];
}

text_file-IsAlone : IsAlone not_cached text_file
text_file-IsAlone = record {
  tree = text_file-IsTree;
  inside = λ x nz. elim (names x) [
    | inl z ↦ absurd (nz z)
    | inr h ↦ (let e = h.1 in omega (arith, e), let e = h.1 in omega (arith, e))
  ];
  short = λ b i l.
      let t : ltb i 512 ≡ false = ground (arith, l) in
      rw t (elim (Bool-cases (b == 20)) [ inl u ↦ rw u refl | inr u ↦ rw u refl ]);
  unshared = λ x nz count e. absurd (cc e);
}

truncate_lem_example :
    (f' : File) × (truncate not_cached 7 text_file ≡ ok f') × Truncated 7 text_file f'
truncate_lem_example = truncate_lem not_cached 7 text_file text_file-IsAlone refl
