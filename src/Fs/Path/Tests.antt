-- ===== src/Fs/Path/Tests.antt =====
-- A walk over a concrete path.
use linux_0_11_lab.Base.{
  [], false, if◌then◌else◌, none, replicate, some, true, ℕ, ◌==◌, ◌↔◌, ◌∷◌, ◌≡◌, ◌≢◌, ◌⊎◌,
}
use linux_0_11_lab.Fs.Bitmap.{ok, panic, zero_inode}
use linux_0_11_lab.Fs.Names.{DirEntry, Directory}
use linux_0_11_lab.Fs.Path.{Places, Walked, get_dir, take_count}
use linux_0_11_lab.Fs.Path.Leads.{Reaches, get_dir_lem}

-- The entry "a" of inode 7.
abbrev entry_a : DirEntry
entry_a = record { inode_nr = 7; name = 97 ∷ replicate 13 0 }

abbrev root_dir : Directory
root_dir = record { i_size = 16; entry = λ i. entry_a; mapped = λ k. k == 0; readable = λ k. true }

-- Inode 0 is the root, and inode 7 comes to slot 1.
abbrev places : Places
places = record {
  inode = λ s. record zero_inode { i_mode = 16877; i_dev = 3; i_nlinks = 2 };
  dir = λ s. root_dir;
  covered = λ s. none;
  iget = λ dev nr. if nr == 7 then some 1 else none;
  root = 0;
  pwd = 0;
  has_root = true;
  has_pwd = true;
  euid = 0;
  egid = 0;
}

abbrev one_user : ℕ → ℕ
one_user i = 1

-- "/a/b"
get_dir_lem_example :
    (((places.has_root ≡ false)
        ⊎ (one_user places.root ≡ 0)
        ⊎ (places.has_pwd ≡ false)
        ⊎ (one_user places.pwd ≡ 0))
      × (get_dir places (47 ∷ 97 ∷ 47 ∷ 98 ∷ []) one_user ≡ panic))
    ⊎ ((places.has_root ≡ true)
        × (one_user places.root ≢ 0)
        × (places.has_pwd ≡ true)
        × (one_user places.pwd ≢ 0)
        × ((w : Walked) × (get_dir places (47 ∷ 97 ∷ 47 ∷ 98 ∷ []) one_user ≡ ok w)
            × ((t : ℕ) → (w.0 ≡ some t) ↔ Reaches places (47 ∷ 97 ∷ 47 ∷ 98 ∷ []) t)
            × ((t : ℕ) → w.0 ≡ some t → (i : ℕ) → w.1 i ≡ take_count t one_user i)
            × (w.0 ≡ none → (i : ℕ) → w.1 i ≡ one_user i)))
get_dir_lem_example = get_dir_lem places (47 ∷ 97 ∷ 47 ∷ 98 ∷ []) one_user
