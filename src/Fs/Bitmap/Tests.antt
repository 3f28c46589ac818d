-- ===== src/Fs/Bitmap/Tests.antt =====
-- A zone map of one block whose first two bits are set.
use linux_0_11_lab.Base.{[], false, replicate, some, true, ◌∷◌}
use linux_0_11_lab.Fs.Bitmap.{Bits, SuperBlock}

abbrev zeros : Bits
zeros = replicate 8190 false

abbrev used_two : Bits
used_two = true ∷ true ∷ zeros

abbrev small_disk : SuperBlock
small_disk = record {
  s_ninodes = 100;
  s_nzones = 1440;
  s_firstdatazone = 20;
  s_imap = [];
  s_zmap = some used_two ∷ [];
}
