-- ===== src/Fs/Names/Tests.antt =====
-- Directories of linux-0.11/fs/namei.c at concrete inputs.
use linux_0_11_lab.Base.{
  List, [], arith, false, none, refl, some, true, ℕ, ◌+◌, ◌==◌, ◌∷◌, ◌≡◌, ◌≢◌, ◌⊎◌,
}
use linux_0_11_lab.Fs.Names.{
  Directory, add_entry, find_entry, find_loop, match, name_len, pad_name, same_bytes,
}
use linux_0_11_lab.Fs.Names.Entries.{Stuck}
use linux_0_11_lab.Fs.Names.Match.{Visible}
use linux_0_11_lab.Fs.Names.Trip.{add_entry-find_entry, linked}

-- Block 0 is full, with entries "A", "B", ...; there is no block 1.
abbrev full_block : Directory
full_block = record {
  i_size = 1024;
  entry = λ j. record { inode_nr = j + 1; name = pad_name name_len 0 1 ((65 + j) ∷ []) };
  mapped = λ k. k == 0;
  readable = λ k. k == 0;
}

-- "!"
abbrev new_name : List ℕ
new_name = 33 ∷ []

not_there : find_entry false none full_block 1 new_name ≡ (full_block, none)
unfolding find_entry find_loop match same_bytes pad_name
not_there = refl

add_entry-find_entry_example :
    ((r : ℕ) × (dir' : Directory) × (add_entry (λ k. true) full_block 1 new_name ≡ some (r, dir'))
      × ((dir'.entry r).inode_nr ≡ 0)
      × ((k : ℕ) → k ≢ r → Visible full_block k → dir'.entry k ≡ full_block.entry k)
      × (find_entry false none (linked r 7 dir') 1 new_name ≡ (linked r 7 dir', some r)))
    ⊎ ((add_entry (λ k. true) full_block 1 new_name ≡ none) × Stuck (λ k. true) full_block)
add_entry-find_entry_example =
    add_entry-find_entry (λ k. true) false none full_block 1 7 new_name refl refl (omega arith) refl
      (omega arith) not_there
