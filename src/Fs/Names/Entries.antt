-- ===== src/Fs/Names/Entries.antt =====
-- add_entry, and the search for what it added.
use linux_0_11_lab.Base.{
  Bool, Bool-cases, List, Option, arith, false, if◌then◌else◌, inl, inr, leb, none, not, refl, some,
  suc, true, zero, ℕ, ◌%◌, ◌&&◌, ◌*◌, ◌+◌, ◌/◌, ◌<◌, ◌==◌, ◌||◌, ◌≡◌, ◌≢◌, ◌≤◌, ◌⊎◌,
}
use native.Mathlib.Decide.{dec_lt, ℕ_discrete}
use linux_0_11_lab.Fs.Names.{
  DirEntry, Directory, add_loop, at_block, dir_entries_per_block, has_block, name_len, pad_name,
  put_entry, sizeof_entry, with_block,
}
use linux_0_11_lab.Fs.Names.Match.{Visible, next_start}

-- A block that stops add_entry: it has no number and can get none, or it cannot be read.
abbrev pub Stuck : (ℕ → Bool) → Directory → Type 0
Stuck can_create dir =
    (k : ℕ) × (((dir.mapped k ≡ false) × (can_create k ≡ false)) ⊎ (dir.readable k ≡ false))

-- Entry `r` of `dir'` is the new one, which a search from entry `i` on came to.
pub record EntryAdded (i len : ℕ) (name : List ℕ) (dir : Directory) (r : ℕ) (dir' : Directory)
    : Type 0 where
  pub here : dir'.entry r ≡ record { inode_nr = 0; name = pad_name name_len 0 len name }
  pub visible : Visible dir' r
  pub inside : r < dir'.i_size / sizeof_entry
  pub kept : (k : ℕ) → k ≢ r → Visible dir k → dir'.entry k ≡ dir.entry k
  pub other_blocks : (j : ℕ) → j ≢ r / dir_entries_per_block → has_block dir' j ≡ has_block dir j
  pub its_block :
      (has_block dir' (r / dir_entries_per_block) ≡ has_block dir (r / dir_entries_per_block))
      ⊎ ((r % dir_entries_per_block ≡ 0) × (has_block dir' (r / dir_entries_per_block) ≡ true))
  pub passed : (k : ℕ) → i ≤ k → k < r → Visible dir k → k < dir.i_size / sizeof_entry

module _ (can_create : ℕ → Bool) (len : ℕ) (name : List ℕ) (dir : Directory)
    (whole : dir.i_size % sizeof_entry ≡ 0) where
  abbrev Adds : ℕ → Option (ℕ × Directory) → Type 0
  Adds i o =
      ((r : ℕ) × (dir' : Directory) × (o ≡ some (r, dir')) × EntryAdded i len name dir r dir')
      ⊎ ((o ≡ none) × Stuck can_create dir)

  abbrev new_entry : DirEntry
  new_entry = record { inode_nr = 0; name = pad_name name_len 0 len name }

  abbrev sized : ℕ → Directory → Directory
  sized i d =
      if leb d.i_size (i * sizeof_entry) then record d { i_size = (i + 1) * sizeof_entry } else d

  -- The new entry in a block that is there.
  added_here :
      (i : ℕ) → Visible dir i → EntryAdded i len name dir i (put_entry i new_entry (sized i dir))
  added_here i v =
      let self : (i == i) ≡ true = ground arith in
      elim (Bool-cases (leb dir.i_size (i * sizeof_entry))) [
        | inl t ↦ rw t (record {
          here = rw self refl;
          visible = v;
          inside = omega arith;
          kept = λ k ne w. let z : (k == i) ≡ false = ground arith in rw z refl;
          other_blocks = λ j ne. refl;
          its_block = inl refl;
          passed = λ k lo hi w. absurd (omega arith);
        })
        | inr t ↦
            let l : i * sizeof_entry < dir.i_size = ground (arith, t) in
            rw t (record {
              here = rw self refl;
              visible = v;
              inside = omega arith;
              kept = λ k ne w. let z : (k == i) ≡ false = ground arith in rw z refl;
              other_blocks = λ j ne. refl;
              its_block = inl refl;
              passed = λ k lo hi w. absurd (omega arith);
            })
      ]

  -- The new entry in a new block.
  added_new :
      (i : ℕ)
      → at_block i ≡ true
      → dir.mapped (i / dir_entries_per_block) ≡ false
      → EntryAdded i len name dir i
          (put_entry i new_entry (sized i (with_block (i / dir_entries_per_block) dir)))
  added_new i b unmapped =
      let self : (i == i) ≡ true = ground arith in
      let block : ℕ = i / dir_entries_per_block in
      let same : (block == block) ≡ true = ground arith in
      let away : (k : ℕ) → Visible dir k → (k / dir_entries_per_block == block) ≡ false =
        not_in_block i b unmapped in
      elim (Bool-cases (leb dir.i_size (i * sizeof_entry))) [
        | inl t ↦ rw t (record {
          here = rw self refl;
          visible = inr (rw same refl);
          inside = omega arith;
          kept = λ k ne w. let z : (k == i) ≡ false = ground arith in rw (z, away k w) refl;
          other_blocks = λ j ne. let z : (j == block) ≡ false = ground arith in rw z refl;
          its_block = inr (ground (arith, b), rw same refl);
          passed = λ k lo hi w. absurd (omega arith);
        })
        | inr t ↦
            let l : i * sizeof_entry < dir.i_size = ground (arith, t) in
            rw t (record {
              here = rw self refl;
              visible = inr (rw same refl);
              inside = omega arith;
              kept = λ k ne w. let z : (k == i) ≡ false = ground arith in rw (z, away k w) refl;
              other_blocks = λ j ne. let z : (j == block) ≡ false = ground arith in rw z refl;
              its_block = inr (ground (arith, b), rw same refl);
              passed = λ k lo hi w. absurd (omega arith);
            })
      ]
    where
      not_in_block :
          (i : ℕ)
          → at_block i ≡ true
          → dir.mapped (i / dir_entries_per_block) ≡ false
          → (k : ℕ) → Visible dir k
          → (k / dir_entries_per_block == i / dir_entries_per_block) ≡ false
      not_in_block i b unmapped k w =
          elim (ℕ_discrete (k / dir_entries_per_block) (i / dir_entries_per_block)) [
            | no ne ↦ ground arith
            | yes e ↦ absurd (elim w [
              | inl z ↦ ground (arith, b, z, e)
              | inr h ↦ let h' = rw e at h in ground (arith, h', unmapped)
            ])
          ]

  -- What holds behind `i'` holds behind `i`, if nothing in between is both visible and outside.
  earlier :
      (i i' : ℕ) (o : Option (ℕ × Directory))
      → i ≤ i'
      → ((k : ℕ) → i ≤ k → k < i' → Visible dir k → k < dir.i_size / sizeof_entry)
      → Adds i' o
      → Adds i o
  earlier i i' o le between (inr f) = inr f
  earlier i i' o le between (inl (r, dir', e, a)) = inl (
    r,
    dir',
    e,
    record {
      here = a.here;
      visible = a.visible;
      inside = a.inside;
      kept = a.kept;
      other_blocks = a.other_blocks;
      its_block = a.its_block;
      passed = λ k lo hi w. elim (dec_lt k i') [
        | yes l ↦ between k lo l w
        | no ge ↦ a.passed k (omega arith) hi w
      ];
    },
  )

  pub add_loop_lem :
      (fuel i : ℕ)
      → dir.i_size / sizeof_entry + 2 ≤ i + fuel
      → (i ≤ dir.i_size / sizeof_entry) ⊎ Stuck can_create dir
      → (i % dir_entries_per_block ≡ 0) ⊎ Visible dir i
      → Adds i (add_loop fuel can_create i len name dir)
  unfolding add_loop
  add_loop_lem zero i h (inl l) start = absurd (omega arith)
  add_loop_lem zero i h (inr stuck) start = inr (refl, stuck)
  add_loop_lem (suc fuel) i h near start =
      elim (Bool-cases (at_block i && not (dir.mapped (i / dir_entries_per_block)))) [
        | inl t ↦
            let b : at_block i ≡ true = ground (arith, t) in
            let m : dir.mapped (i / dir_entries_per_block) ≡ false = ground (arith, t) in
            let same : (i / dir_entries_per_block == i / dir_entries_per_block) ≡ true =
              ground arith in
            elim (Bool-cases (can_create (i / dir_entries_per_block))) [
              | inl c ↦ inl (
                i,
                _,
                elim (Bool-cases (leb dir.i_size (i * sizeof_entry))) [
                  | inl f ↦ rw (b, m, c, same, f) refl
                  | inr f ↦ rw (b, m, c, same, f) refl
                ],
                added_new i b m,
              )
              | inr c ↦ inr (rw (b, m, c) refl, (i / dir_entries_per_block, inl (m, c)))
            ]
        | inr t ↦ elim (Bool-cases (at_block i && not (dir.readable (i / dir_entries_per_block)))) [
          | inl u ↦
              let unread : dir.readable (i / dir_entries_per_block) ≡ false = ground (arith, u) in
              rw (t, u)
                (earlier i (i + dir_entries_per_block) _ (omega arith)
                  (λ k lo hi w. absurd (hidden i k lo hi u w))
                  (add_loop_lem fuel (i + dir_entries_per_block) (omega arith)
                    (inr (i / dir_entries_per_block, inr unread)) (inl (ground (arith, u)))))
          | inr u ↦
              let v : Visible dir i = shown i start t u in
              elim (Bool-cases (leb dir.i_size (i * sizeof_entry) || (dir.entry i).inode_nr == 0)) [
                | inl f ↦ inl (i, _, rw (t, u, f) refl, added_here i v)
                | inr f ↦
                    rw (t, u, f)
                      (earlier i (i + 1) _ (omega arith) (λ k lo hi w. inside i k hi f)
                        (add_loop_lem fuel (i + 1) (omega arith)
                          (inl (let l = inside i i (omega arith) f in omega arith))
                          (next_start dir i v)))
              ]
        ]
      ]
    where
      hidden :
          (i k : ℕ)
          → i ≤ k
          → k < i + dir_entries_per_block
          → (at_block i && not (dir.readable (i / dir_entries_per_block))) ≡ true
          → Visible dir k
          → ⊥
      hidden i k lo hi u w =
          let e : k / dir_entries_per_block ≡ i / dir_entries_per_block = ground (arith, u) in
          elim w [
            | inl z ↦ ground (arith, u, z, e)
            | inr b ↦ let c = rw e at b in ground (arith, u, c)
          ]

      shown :
          (i : ℕ)
          → (i % dir_entries_per_block ≡ 0) ⊎ Visible dir i
          → (at_block i && not (dir.mapped (i / dir_entries_per_block))) ≡ false
          → (at_block i && not (dir.readable (i / dir_entries_per_block))) ≡ false
          → Visible dir i
      shown i (inr v) t u = v
      shown i (inl z) t u = elim (ℕ_discrete i 0) [
        | yes e ↦ inl (omega arith)
        | no ne ↦ inr (ground (arith, t, u, z, ne))
      ]

      inside :
          (i k : ℕ)
          → k < i + 1
          → (leb dir.i_size (i * sizeof_entry) || (dir.entry i).inode_nr == 0) ≡ false
          → k < dir.i_size / sizeof_entry
      inside i k hi f = let l : i * sizeof_entry < dir.i_size = ground (arith, f) in omega arith
