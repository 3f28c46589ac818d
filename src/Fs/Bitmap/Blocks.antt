-- ===== src/Fs/Bitmap/Blocks.antt =====
-- new_block and free_block.
use linux_0_11_lab.Base.{
  Bool, Bool-cases, List, Option, [], ap, arith, false, get_or, get_or-default, get_or-past,
  get_or-set_self, if◌then◌else◌, inl, inr, leb, length, ltb, none, refl, set, set-get_or, set-set,
  some, suc, sym, true, zero, ℕ, ◌%◌, ◌*◌, ◌+◌, ◌-◌, ◌/◌, ◌<◌, ◌==◌, ◌∙◌, ◌∷◌, ◌≡◌, ◌≤◌, ◌⊎◌,
}
use native.Mathlib.Decide.{dec_lt}
use linux_0_11_lab.Fs.Bitmap.{
  Bits, SuperBlock, bits_of, find_first_zero, find_map, free_block, map_bits, new_block, ok, panic,
  put_bit,
}

-- What find_map finds: a bit that is 0, in a map block that is there.
pub record Clear (maps : List (Option Bits)) (i j : ℕ) : Type 0 where
  pub bits : Bits
  pub here : get_or maps i none ≡ some bits
  pub clear : get_or bits j true ≡ false
  pub in_bits : j < length bits
  pub in_block : j < map_bits

find_first_zero_lem :
    (bits : Bits)
    → find_first_zero bits < length bits
    → get_or bits (find_first_zero bits) true ≡ false
unfolding find_first_zero
find_first_zero_lem [] h = absurd (omega arith)
find_first_zero_lem (true ∷ bits) h =
    let e : 1 + find_first_zero bits ≡ suc (find_first_zero bits) = omega arith in
    rw e (find_first_zero_lem bits (omega arith))
find_first_zero_lem (false ∷ bits) h = refl

-- Each map block has all its bits.
abbrev pub AreMaps : List (Option Bits) → Type 0
AreMaps maps = (i : ℕ) (bits : Bits) → get_or maps i none ≡ some bits → length bits ≡ map_bits

find_map_lem :
    (k : ℕ) (maps : List (Option Bits))
    → AreMaps maps
    → (find_map k maps ≡ none) ⊎ ((i j : ℕ) × (find_map k maps ≡ some (k + i, j)) × Clear maps i j)
unfolding find_map
find_map_lem k [] whole = inl refl
find_map_lem k (none ∷ maps) whole = elim (find_map_lem (k + 1) maps (λ i. whole (suc i))) [
  | inl e ↦ inl e
  | inr (i, j, e, c) ↦
      let f : k + 1 + i ≡ k + suc i = omega arith in
      inr (
        suc i,
        j,
        e ∙ rw f refl,
        record {
          bits = c.bits;
          here = c.here;
          clear = c.clear;
          in_bits = c.in_bits;
          in_block = c.in_block;
        },
      )
]
find_map_lem k (some bits ∷ maps) whole =
    let long = whole 0 bits refl in
    elim (Bool-cases (ltb (find_first_zero bits) map_bits)) [
      | inl t ↦
          let l : find_first_zero bits < length bits = ground (arith, t, long) in
          let f : k + 0 ≡ k = omega arith in
          inr (
            0,
            find_first_zero bits,
            rw (t, f) refl,
            record {
              bits = bits;
              here = refl;
              clear = find_first_zero_lem bits l;
              in_bits = l;
              in_block = omega arith;
            },
          )
      | inr t ↦ elim (find_map_lem (k + 1) maps (λ i. whole (suc i))) [
        | inl e ↦ inl (rw t e)
        | inr (i, j, e, c) ↦
            let f : k + 1 + i ≡ k + suc i = omega arith in
            inr (
              suc i,
              j,
              rw t (e ∙ rw f refl),
              record {
                bits = c.bits;
                here = c.here;
                clear = c.clear;
                in_bits = c.in_bits;
                in_block = c.in_block;
              },
            )
      ]
    ]

module _ (maps : List (Option Bits)) (i j : ℕ) (c : Clear maps i j) where
  in_maps : i < length maps
  in_maps = elim (dec_lt i (length maps)) [
    | yes l ↦ l
    | no past ↦
        let z = get_or-past maps i none (omega arith) in let h = c.here in absurd (cc (z, h))
  ]

  pub bits_there : bits_of maps i ≡ c.bits
  bits_there = rw (c.here, bits_of) refl

  pub was_clear : get_or (bits_of maps i) j false ≡ false
  was_clear = rw bits_there (get_or-default c.bits j false true c.in_bits ∙ c.clear)

  pub here_after : get_or (put_bit true i j maps) i none ≡ some (set c.bits j true)
  here_after = rw bits_there (get_or-set_self maps i (some (set c.bits j true)) none in_maps)

  put_back : put_bit false i j (put_bit true i j maps) ≡ maps
  put_back =
      let there : bits_of (put_bit true i j maps) i ≡ set c.bits j true =
        rw (here_after, bits_of) refl in
      let b = set-set c.bits j true false in
      let z : get_or c.bits j true ≡ false = c.clear in
      let d : set c.bits j false ≡ c.bits = ap (set c.bits j) (sym z) ∙ set-get_or c.bits j true in
      ap (λ x. set (put_bit true i j maps) i (some (set x j false))) there
      ∙ ap (λ x. set (put_bit true i j maps) i (some x)) (b ∙ d)
      ∙ set-set maps i (some (set (bits_of maps i) j true)) (some c.bits)
      ∙ ap (set maps i) (sym c.here)
      ∙ set-get_or maps i none

-- The number of the block with bit `j` of map block `i`.
abbrev pub block_at : SuperBlock → ℕ → ℕ → ℕ
block_at sb i j = j + i * map_bits + sb.s_firstdatazone - 1

abbrev pub with_bit : SuperBlock → ℕ → ℕ → SuperBlock
with_bit sb i j = record sb { s_zmap = put_bit true i j sb.s_zmap }

-- Whether free_block gives the block up: its buffer, if it has one, has one user.
abbrev pub is_free_now : Option ℕ → Bool
is_free_now none = true
is_free_now (some count) = count == 1

pub new_block-free_block :
    (b_count : ℕ) (cached : Option ℕ) (sb : SuperBlock)
    → AreMaps sb.s_zmap
    → 1 ≤ sb.s_firstdatazone
    → get_or (bits_of sb.s_zmap 0) 0 true ≡ true
    → (new_block b_count sb ≡ ok (0, sb))
      ⊎ ((i j : ℕ) × Clear sb.s_zmap i j
          × (sb.s_nzones ≤ block_at sb i j)
          × (new_block b_count sb ≡ ok (0, with_bit sb i j)))
      ⊎ ((i j : ℕ) × Clear sb.s_zmap i j
          × (sb.s_firstdatazone ≤ block_at sb i j)
          × (block_at sb i j < sb.s_nzones)
          × (new_block b_count sb
              ≡ (if b_count == 1 then ok (block_at sb i j, with_bit sb i j) else panic))
          × (free_block cached (block_at sb i j) (with_bit sb i j)
              ≡ (if is_free_now cached then ok sb else ok (with_bit sb i j))))
unfolding new_block free_block
new_block-free_block b_count cached sb whole first zero_set =
    elim (find_map_lem 0 sb.s_zmap whole) [
      | inl e ↦ inl (rw (e, new_block) refl)
      | inr (i, j, e0, c) ↦
          let zero_i : 0 + i ≡ i = omega arith in
          let e : find_map 0 sb.s_zmap ≡ some (i, j) = rw zero_i at e0 in
          let w = was_clear sb.s_zmap i j c in
          let small = c.in_block in
          inr (elim (Bool-cases (leb sb.s_nzones (block_at sb i j))) [
            | inl t ↦ inl (i, j, c, ground (arith, t), rw (e, w, t, new_block) refl)
            | inr t ↦
                let positive : 1 ≤ j + i * map_bits = first_bit sb.s_zmap i j c zero_set in
                let low : ltb (block_at sb i j) sb.s_firstdatazone ≡ false = ground arith in
                let n : block_at sb i j + 1 - sb.s_firstdatazone ≡ j + i * map_bits = omega arith in
                let n1 : (block_at sb i j + 1 - sb.s_firstdatazone) / map_bits ≡ i = omega arith in
                let n2 : (block_at sb i j + 1 - sb.s_firstdatazone) % map_bits ≡ j = omega arith in
                let there = here_after sb.s_zmap i j c in
                let bit = get_or-set_self c.bits j true false c.in_bits in
                let back = put_back sb.s_zmap i j c in
                inr (
                  i,
                  j,
                  c,
                  omega arith,
                  ground (arith, t),
                  rw (e, w, t, new_block) refl,
                  elim cached
                      as (λ k.
                        free_block k (block_at sb i j) (with_bit sb i j)
                        ≡ (if is_free_now k then ok sb else ok (with_bit sb i j))) [
                          | none ↦ rw (low, t, n1, there, n2, bit, n1, back) refl
                          | some count ↦ elim (Bool-cases (count == 1)) [
                            | inl one ↦ rw (low, t, n1, there, n2, bit, n1, back, one) refl
                            | inr more ↦ rw (low, t, more) refl
                          ]
                        ],
                )
          ])
    ]
  where
    first_bit :
        (maps : List (Option Bits)) (i j : ℕ)
        → Clear maps i j
        → get_or (bits_of maps 0) 0 true ≡ true
        → 1 ≤ j + i * map_bits
    first_bit maps zero zero c set_there =
        let z = c.clear in let y = rw (bits_there maps 0 0 c) at set_there in absurd (cc (z, y))
    first_bit maps zero (suc j) c set_there = omega arith
    first_bit maps (suc i) j c set_there = omega arith
