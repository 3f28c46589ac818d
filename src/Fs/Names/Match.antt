-- ===== src/Fs/Names/Match.antt =====
-- match, and the search for an entry.
use linux_0_11_lab.Base.{
  Bool-cases, List, Option, arith, false, get_or, if◌then◌else◌, inl, inr, leb, ltb, none, not,
  refl, some, suc, true, zero, ℕ, ◌%◌, ◌&&◌, ◌+◌, ◌/◌, ◌<◌, ◌==◌, ◌||◌, ◌≡◌, ◌≢◌, ◌≤◌, ◌⊎◌,
}
use native.Mathlib.Decide.{dec_lt, ℕ_discrete}
use linux_0_11_lab.Fs.Names.{
  Directory, at_block, dir_entries_per_block, find_loop, has_block, match, name_len, pad_name,
  same_bytes,
}

same_bytes_lem :
    (len i : ℕ) (name other : List ℕ)
    → ((j : ℕ) → i ≤ j → j < i + len → get_or name j 0 ≡ get_or other j 0)
    → same_bytes len i name other ≡ true
unfolding same_bytes
same_bytes_lem zero i name other same = refl
same_bytes_lem (suc len) i name other same =
    let here = same i (omega arith) (omega arith) in
    let rest =
      same_bytes_lem len (i + 1) name other (λ j a b. same j (omega arith) (omega arith)) in
    ground (arith, here, rest)

get_or-pad_name :
    (n i len : ℕ) (name : List ℕ) (j : ℕ)
    → j < n
    → get_or (pad_name n i len name) j 0 ≡ (if ltb (i + j) len then get_or name (i + j) 0 else 0)
unfolding pad_name
get_or-pad_name zero i len name j l = absurd (omega arith)
get_or-pad_name (suc n) i len name zero l = let e : i + 0 ≡ i = omega arith in rw e refl
get_or-pad_name (suc n) i len name (suc j) l =
    let e : i + suc j ≡ i + 1 + j = omega arith in
    rw e (get_or-pad_name n (i + 1) len name j (omega arith))

-- An entry that add_entry has made, with its inode, matches the name.
pub match-pad_name :
    (len nr : ℕ) (name : List ℕ)
    → len ≤ name_len
    → nr ≢ 0
    → match len name (record { inode_nr = nr; name = pad_name name_len 0 len name }) ≡ true
unfolding match
match-pad_name len nr name short nz =
    let a : (nr == 0 || ltb name_len len) ≡ false = ground (arith, nz, short) in
    let b : (ltb len name_len && not (get_or (pad_name name_len 0 len name) len 0 == 0)) ≡ false =
      elim (dec_lt len name_len) [
        | yes l ↦ let g = get_or-pad_name name_len 0 len name len l in ground (arith, g)
        | no n ↦ ground arith
      ] in
    rw (a, b)
      (same_bytes_lem len 0 name (pad_name name_len 0 len name) (λ j lo hi.
        let g = get_or-pad_name name_len 0 len name j (omega arith) in
        let e : 0 + j ≡ j = omega arith in let h = rw e at g in ground (arith, h, hi)))

-- The loop reads the entry: it is in the first block, or in one that is there.
abbrev pub Visible : Directory → ℕ → Type 0
Visible dir j = (j / dir_entries_per_block ≡ 0) ⊎ (has_block dir (j / dir_entries_per_block) ≡ true)

pub next_start :
    (dir : Directory) (i : ℕ)
    → Visible dir i
    → ((i + 1) % dir_entries_per_block ≡ 0) ⊎ Visible dir (i + 1)
next_start dir i v = elim (ℕ_discrete ((i + 1) % dir_entries_per_block) 0) [
  | yes e ↦ inl e
  | no ne ↦
      let e : (i + 1) / dir_entries_per_block ≡ i / dir_entries_per_block = omega arith in
      inr (rw e v)
]

-- What the search from entry `i` on ends with: no entry, or the first that matches.
pub data Search (entries i len : ℕ) (name : List ℕ) (dir : Directory) : Option ℕ → Type 0 where
  finds :
      (j : ℕ)
      → i ≤ j
      → j < entries
      → Visible dir j
      → match len name (dir.entry j) ≡ true
      → ((k : ℕ) → i ≤ k → k < j → Visible dir k → match len name (dir.entry k) ≡ false)
      → Search entries i len name dir (some j)
  misses :
      ((k : ℕ) → i ≤ k → k < entries → Visible dir k → match len name (dir.entry k) ≡ false)
      → Search entries i len name dir none

module _ (entries len : ℕ) (name : List ℕ) (dir : Directory) where
  -- The entries from `i` up to `next` need not be looked at again.
  widen :
      (i i' : ℕ) (r : Option ℕ)
      → i ≤ i'
      → ((k : ℕ)
          → i ≤ k
          → k < i'
          → k < entries
          → Visible dir k
          → match len name (dir.entry k) ≡ false)
      → Search entries i' len name dir r
      → Search entries i len name dir r
  widen i i' _ le before (finds j a b v m first) = finds j (omega arith) b v m (λ k lo hi w.
      elim (dec_lt k i') [
        | yes l ↦ before k lo l (omega arith) w
        | no ge ↦ first k (omega arith) hi w
      ])
  widen i i' _ le before (misses all) = misses (λ k lo hi w. elim (dec_lt k i') [
    | yes l ↦ before k lo l hi w
    | no ge ↦ all k (omega arith) hi w
  ])

  pub find_loop_lem :
      (fuel i : ℕ)
      → entries ≤ i + fuel
      → (i % dir_entries_per_block ≡ 0) ⊎ Visible dir i
      → Search entries i len name dir (find_loop fuel entries i len name dir)
  unfolding find_loop
  find_loop_lem zero i h start = misses (λ k lo hi w. absurd (omega arith))
  find_loop_lem (suc fuel) i h start = elim (Bool-cases (leb entries i)) [
    | inl t ↦ rw (t, find_loop) (misses (λ k lo hi w. absurd (ground (arith, t))))
    | inr t ↦ elim (Bool-cases (at_block i && not (has_block dir (i / dir_entries_per_block)))) [
      | inl u ↦
          rw (t, u, find_loop)
            (widen i (i + dir_entries_per_block) _ (omega arith)
              (λ k lo hi l w. absurd (hidden i k lo hi u w))
              (find_loop_lem fuel (i + dir_entries_per_block) (omega arith)
                (inl (ground (arith, u)))))
      | inr u ↦ elim (Bool-cases (match len name (dir.entry i))) [
        | inl m ↦
            rw (t, u, m, find_loop)
              (finds i (omega arith) (ground (arith, t)) (shown i start u) m
                (λ k lo hi w. absurd (omega arith)))
        | inr m ↦
            rw (t, u, m, find_loop)
              (widen i (i + 1) _ (omega arith)
                (λ k lo hi l w. let same : k ≡ i = omega arith in rw same m)
                (find_loop_lem fuel (i + 1) (omega arith) (next_start dir i (shown i start u))))
      ]
    ]
  ]
    where
      hidden :
          (i k : ℕ)
          → i ≤ k
          → k < i + dir_entries_per_block
          → (at_block i && not (has_block dir (i / dir_entries_per_block))) ≡ true
          → Visible dir k
          → ⊥
      hidden i k lo hi u w =
          let e : k / dir_entries_per_block ≡ i / dir_entries_per_block = ground (arith, u) in
          elim w [
            | inl z ↦ ground (arith, u, z, e)
            | inr b ↦ let c = rw e at b in ground (arith, u, c)
          ]

      shown :
          (i : ℕ)
          → (i % dir_entries_per_block ≡ 0) ⊎ Visible dir i
          → (at_block i && not (has_block dir (i / dir_entries_per_block))) ≡ false
          → Visible dir i
      shown i (inr v) u = v
      shown i (inl z) u = elim (ℕ_discrete i 0) [
        | yes e ↦ inl (omega arith)
        | no ne ↦ inr (ground (arith, u, z, ne))
      ]
