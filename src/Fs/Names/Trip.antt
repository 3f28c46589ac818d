-- ===== src/Fs/Names/Trip.antt =====
-- find_entry finds what add_entry has added.
use linux_0_11_lab.Base.{
  Bool, List, Option, arith, false, inl, inr, min, none, refl, some, sym, true, ℕ, ◌%◌, ◌+◌, ◌/◌,
  ◌<◌, ◌==◌, ◌≡◌, ◌≢◌, ◌≤◌, ◌⊎◌,
}
use native.Mathlib.Decide.{dec_lt, ℕ_discrete}
use linux_0_11_lab.Fs.Names.{
  Directory, add_entry, dir_entries_per_block, find_entry, find_loop, has_block, is_dotdot, match,
  name_len, put_entry, sizeof_entry,
}
use linux_0_11_lab.Fs.Names.Entries.{EntryAdded, Stuck, add_loop_lem}
use linux_0_11_lab.Fs.Names.Match.{Search, Visible, find_loop_lem, finds, match-pad_name, misses}

-- A search that found nothing has passed every entry.
missed :
    (entries i len : ℕ) (name : List ℕ) (dir : Directory) (o : Option ℕ)
    → Search entries i len name dir o
    → o ≡ none
    → (k : ℕ) → i ≤ k
    → k < entries
    → Visible dir k
    → match len name (dir.entry k) ≡ false
missed entries i len name dir _ (finds j a b v m first) e = absurd (grind (arith, e))
missed entries i len name dir _ (misses all) e = all

found :
    (entries i len r : ℕ) (name : List ℕ) (dir : Directory) (o : Option ℕ)
    → Search entries i len name dir o
    → i ≤ r
    → r < entries
    → Visible dir r
    → match len name (dir.entry r) ≡ true
    → ((k : ℕ) → i ≤ k → k < r → Visible dir k → match len name (dir.entry k) ≡ false)
    → o ≡ some r
found entries i len r name dir _ (finds j a b v m first) lo hi w t before = elim (ℕ_discrete j r) [
  | yes e ↦ rw e refl
  | no ne ↦ elim (dec_lt j r) [
    | yes l ↦ let f = before j a l v in ground (arith, m, f)
    | no ge ↦ let f = first r lo (omega arith) w in ground (arith, t, f)
  ]
]
found entries i len r name dir _ (misses all) lo hi w t before =
    let f = all r lo hi w in ground (arith, t, f)

-- The entry with its inode, as the callers of add_entry make it.
abbrev pub linked : ℕ → ℕ → Directory → Directory
linked r nr dir = put_entry r (record (dir.entry r) { inode_nr = nr }) dir

module _ (dir : Directory) (len r : ℕ) (name : List ℕ) (dir' : Directory) (nr : ℕ) (nz : nr ≢ 0)
    (short : len ≤ name_len) (a : EntryAdded 0 len name dir r dir') where
  blocks_before : (k : ℕ) → k < r → Visible dir' k → Visible dir k
  blocks_before k l (inl z) = inl z
  blocks_before k l (inr h) =
      elim (ℕ_discrete (k / dir_entries_per_block) (r / dir_entries_per_block)) [
        | no ne ↦ inr (let e = a.other_blocks (k / dir_entries_per_block) ne in rw e at h)
        | yes same ↦ elim a.its_block [
          | inl e ↦ inr (let h' = rw (same, e) at h in rw same h')
          | inr (z, _) ↦ absurd (omega arith)
        ]
      ]

  first_block : has_block dir 0 ≡ true → has_block dir' 0 ≡ true
  first_block h = elim (ℕ_discrete 0 (r / dir_entries_per_block)) [
    | no ne ↦ let e = a.other_blocks 0 ne in rw e h
    | yes same ↦ elim a.its_block [
      | inl e ↦ let e' = rw (sym same) at e in rw e' h
      | inr (_, t) ↦ let t' = rw (sym same) at t in t'
    ]
  ]

  search-linked :
      find_loop (dir.i_size / sizeof_entry) (dir.i_size / sizeof_entry) 0 len name dir ≡ none
      → find_loop
          (dir'.i_size / sizeof_entry)
          (dir'.i_size / sizeof_entry)
          0
          len
          name
          (linked r nr dir')
        ≡ some r
  search-linked absent =
      let self : (r == r) ≡ true = ground arith in
      let entries : ℕ = dir'.i_size / sizeof_entry in
      let old : ℕ = dir.i_size / sizeof_entry in
      found entries 0 len r name (linked r nr dir') _
        (find_loop_lem entries len name (linked r nr dir') entries 0 (omega arith) (inl refl))
        (omega arith) a.inside a.visible (rw (self, a.here) (match-pad_name len nr name short nz))
        (λ k lo hi w.
          let v : Visible dir k = blocks_before k hi w in
          let other : (k == r) ≡ false = ground (arith, hi) in
          let here : dir'.entry k ≡ dir.entry k = a.kept k (omega arith) v in
          rw (other, here)
            (missed old 0 len name dir _
              (find_loop_lem old len name dir old 0 (omega arith) (inl refl)) absent k lo
              (a.passed k lo hi v) v))

-- What the callers of add_entry rely on. In a directory of whole entries, whose first block is there
-- and in which find_entry finds no entry of the name, which is not "..", add_entry either makes an
-- entry, with inode number 0, leaves all other entries of blocks that are there as they were, and,
-- once the caller has written an inode number other than 0 into it, find_entry finds that entry; or
-- it fails, and then a block can get no room on the disk or cannot be read.
pub add_entry-find_entry :
    (can_create : ℕ → Bool) (at_root : Bool) (covered : Option Directory) (dir : Directory)
    (namelen nr : ℕ) (name : List ℕ)
    → dir.i_size % sizeof_entry ≡ 0
    → has_block dir 0 ≡ true
    → namelen ≢ 0
    → is_dotdot (min namelen name_len) name ≡ false
    → nr ≢ 0
    → find_entry at_root covered dir namelen name ≡ (dir, none)
    → ((r : ℕ) × (dir' : Directory) × (add_entry can_create dir namelen name ≡ some (r, dir'))
        × ((dir'.entry r).inode_nr ≡ 0)
        × ((k : ℕ) → k ≢ r → Visible dir k → dir'.entry k ≡ dir.entry k)
        × (find_entry at_root covered (linked r nr dir') namelen name ≡ (linked r nr dir', some r)))
      ⊎ ((add_entry can_create dir namelen name ≡ none) × Stuck can_create dir)
unfolding find_entry add_entry
add_entry-find_entry can_create at_root covered dir namelen nr name whole first named plain nz
      absent =
    let n0 : (namelen == 0) ≡ false = ground (arith, named) in
    let old : ℕ = dir.i_size / sizeof_entry in
    let len : ℕ = min namelen name_len in
    let gone : find_loop old old 0 len name dir ≡ none =
      let p = rw (n0, plain, first) at absent in (λ i. (p i).1) in
    elim (add_loop_lem can_create len name dir whole (old + 2) 0 (omega arith) (inl (omega arith))
      (inl refl)) [
        | inl (r, dir', e, a) ↦
            let there : has_block dir' 0 ≡ true =
              first_block dir len r name dir' nr nz (omega arith) a first in
            inl (
              r,
              dir',
              rw (n0, first) e,
              (λ i. (a.here i).inode_nr),
              a.kept,
              rw (n0, plain, there, search-linked dir len r name dir' nr nz (omega arith) a gone)
                  refl,
            )
        | inr (e, stuck) ↦ inr (rw (n0, first) e, stuck)
      ]
