-- ===== src/Fs/Regular/Tests.antt =====
-- Reading and writing of a file at concrete inputs.
use linux_0_11_lab.Base.{
  [], arith, false, if◌then◌else◌, inl, inr, length-replicate, refl, replicate, some, suc, sym,
  true, zero, ℕ, ◌+◌, ◌==◌, ◌∙◌, ◌∷◌, ◌≡◌, ◌⊎◌,
}
use linux_0_11_lab.Base.Int.{pos}
use linux_0_11_lab.Fs.Bitmap.{Bits, SuperBlock, ok, zero_inode}
use linux_0_11_lab.Fs.Bitmap.Blocks.{AreMaps}
use linux_0_11_lab.Fs.Regular.{
  Opened, file_read, file_write, put_bytes, read_file, with_atime, write_loop,
}
use linux_0_11_lab.Fs.Regular.Content.{content, readable_bytes}
use linux_0_11_lab.Fs.Regular.Reading.{get_or-replicate, read_file_lem}
use linux_0_11_lab.Fs.Regular.Trip.{file_read-file_write}
use linux_0_11_lab.Fs.Regular.Writing.{file_write_lem, written}
use linux_0_11_lab.Fs.Regular.Wrote.{Wrote}
use linux_0_11_lab.Fs.Zones.{File, _bmap, and_then, need_zone}
use linux_0_11_lab.Fs.Zones.Lookup.{lookup}
use linux_0_11_lab.Fs.Zones.Tree.{IsTree, Node, name, top, word1, word2, word3}

-- Bit 0 of the map is set, and that of block 20, the first of the data zone.
abbrev first_used : Bits
first_used = true ∷ true ∷ replicate 8190 false

abbrev disk : SuperBlock
disk = record {
  s_ninodes = 100;
  s_nzones = 1440;
  s_firstdatazone = 20;
  s_imap = [];
  s_zmap = some first_used ∷ [];
}

-- Block 20 is the first of the file; its words are 16961, the bytes 65 and 66.
abbrev text_file : File
text_file = record {
  inode = record zero_inode { i_size = 700; i_zone = 20 ∷ replicate 8 0 };
  volume = record { sb = disk; words = λ b j. if b == 20 then 16961 else 0; readable = λ b. true };
}

abbrev opened : Opened
opened = record { f_pos = 699; o_append = false }

disk-AreMaps : AreMaps disk.s_zmap
disk-AreMaps zero bits e =
    let z : first_used ≡ bits = cc e in
    rw (← z) (let n = length-replicate 8190 false in omega (arith, n))
disk-AreMaps (suc i) bits e = absurd (cc e)

names : (x : Node) → (name x text_file ≡ 0) ⊎ ((x ≡ top 0) × (name x text_file ≡ 20))
names (top zero) = inr (refl, refl)
names (top (suc k)) = inl (get_or-replicate 8 0 k)
names (word1 i) = inl refl
names (word2 j) = inl refl
names (word3 j l) = inl refl

text_file-IsTree : IsTree text_file
text_file-IsTree = record {
  volume = record { whole = disk-AreMaps; first = omega arith; bit_0 = refl; short = omega arith };
  zones = refl;
  used = λ x. elim (names x) [ inl z ↦ inl z | inr h ↦ inr (rw h.1 refl) ];
  distinct = λ x y nz e. elim (names x) [
    | inl z ↦ absurd (nz z)
    | inr h ↦ elim (names y) [ inl z ↦ absurd (nz (e ∙ z)) | inr h' ↦ h.0 ∙ sym h'.0 ]
  ];
}

abbrev file_after : File
file_after = elim (file_write 7 text_file opened (72 ∷ 105 ∷ [])) [ ok x ↦ x.1 | _ ↦ text_file ]

read_file_lem_example :
    read_file 7 text_file opened 5
    ≡ ok (
      pos 1,
      readable_bytes text_file 699 1,
      with_atime 7 text_file,
      record opened { f_pos = 700 },
    )
unfolding readable_bytes content lookup
read_file_lem_example = read_file_lem 7 text_file opened 5 (omega arith)

file_write_lem_example :
    (i : ℕ) × (g : File) × (file_write 7 text_file opened (72 ∷ 105 ∷ [])
      ≡ ok (written i, g, record opened { f_pos = 699 + i }))
    × Wrote (72 ∷ 105 ∷ []) 699 text_file i g
file_write_lem_example =
    file_write_lem 7 text_file opened (72 ∷ 105 ∷ []) text_file-IsTree (omega arith)

written_whole :
    file_write 7 text_file opened (72 ∷ 105 ∷ [])
    ≡ ok (pos 2, file_after, record opened { f_pos = 701 })
unfolding file_write write_loop and_then _bmap need_zone put_bytes
written_whole = refl

file_read-file_write_example :
    file_read 8 file_after opened 2
    ≡ ok (pos 2, 72 ∷ 105 ∷ [], with_atime 8 file_after, record opened { f_pos = 701 })
file_read-file_write_example =
    file_read-file_write 7 8 text_file opened (72 ∷ 105 ∷ []) file_after
      (record opened { f_pos = 701 }) text_file-IsTree (omega arith) (omega arith) written_whole
