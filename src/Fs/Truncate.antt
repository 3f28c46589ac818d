-- ===== src/Fs/Truncate.antt =====
-- Freeing the blocks of a file: linux-0.11/fs/truncate.c, over free_block of Fs.Bitmap. `cached` gives
-- the count that get_hash_table finds for the buffer of a block, if it has one. A directory or a regular
-- file is one whose mode says so; free_block changes no words of blocks.
pub mod Free
pub mod Rank
pub mod Stage
pub mod Levels
pub mod Whole
mod Tests
use linux_0_11_lab.Base.{
  Bool, Option, bit_and, if◌then◌else◌, not, replicate, suc, true, zero, ℕ, ◌+◌, ◌==◌, ◌||◌,
}
use linux_0_11_lab.Fs.Bitmap.{Inode, Outcome, SuperBlock, free_block, ok}
use linux_0_11_lab.Fs.Zones.{File, Volume, and_then, zone}

-- `for (i = 0; i < n; i++) if (p[i]) free(p[i])`, from place `i` on.
pub each_word :
    (ℕ → SuperBlock → Outcome SuperBlock) → (ℕ → ℕ) → ℕ → ℕ → SuperBlock → Outcome SuperBlock
each_word free p zero i sb = ok sb
each_word free p (suc n) i sb =
    and_then (if p i == 0 then ok sb else free (p i) sb) (λ sb'. each_word free p n (i + 1) sb')

-- S_ISREG and S_ISDIR
abbrev pub has_blocks : ℕ → Bool
has_blocks mode = bit_and mode 61440 == 32768 || bit_and mode 61440 == 16384

abbrev pub emptied : ℕ → Inode → Inode
emptied now inode = record inode {
  i_zone = replicate 9 0;
  i_size = 0;
  i_dirt = true;
  i_mtime = now;
  i_ctime = now;
}

module _ (cached : ℕ → Option ℕ) where
  abbrev pub free_cached : ℕ → SuperBlock → Outcome SuperBlock
  free_cached block sb = free_block (cached block) block sb

  -- The blocks of the words of a block, and the block.
  abbrev pub free_words :
      (ℕ → SuperBlock → Outcome SuperBlock) → Volume → ℕ → SuperBlock → Outcome SuperBlock
  free_words free v block sb =
      if block == 0
      then ok sb
      else and_then (if v.readable block then each_word free (v.words block) 512 0 sb else ok sb)
          (free_cached block)

  abbrev pub free_ind : Volume → ℕ → SuperBlock → Outcome SuperBlock
  free_ind v block sb = free_words free_cached v block sb

  abbrev pub free_dind : Volume → ℕ → SuperBlock → Outcome SuperBlock
  free_dind v block sb = free_words (free_ind v) v block sb

  pub truncate : ℕ → File → Outcome File
  truncate now f =
      if not (has_blocks f.inode.i_mode)
      then ok f
      else and_then (each_word free_cached (λ k. zone k f) 7 0 f.volume.sb) (λ sb1.
        and_then (free_ind f.volume (zone 7 f) sb1) (λ sb2.
          and_then (free_dind f.volume (zone 8 f) sb2) (λ sb3.
            ok (record { inode = emptied now f.inode; volume = record f.volume { sb = sb3 } }))))
