-- ===== src/Fs/Truncate/Free.antt =====
-- free_block on one block.
use linux_0_11_lab.Base.{
  Bool, List, Option, Option-cases, [], arith, false, get_or, get_or-past, get_or-set_ne,
  get_or-set_self, inl, inr, leb, length, ltb, none, refl, set, some, suc, sym, true, zero, ℕ, ◌%◌,
  ◌+◌, ◌-◌, ◌/◌, ◌<◌, ◌||◌, ◌∷◌, ◌≡◌, ◌≢◌, ◌≤◌, ◌⊎◌,
}
use native.Mathlib.Decide.{dec_lt, ℕ_discrete}
use linux_0_11_lab.Fs.Bitmap.{Bits, SuperBlock, bits_of, free_block, map_bits, ok, put_bit}
use linux_0_11_lab.Fs.Zones.Allocate.{in_use}

-- `sb'` is `sb` without `block`.
pub record Freed (block : ℕ) (sb sb' : SuperBlock) : Type 0 where
  pub same_first : sb'.s_firstdatazone ≡ sb.s_firstdatazone
  pub same_nzones : sb'.s_nzones ≡ sb.s_nzones
  pub gone : in_use sb' block ≡ false
  pub others : (c : ℕ) → sb.s_firstdatazone ≤ c → c ≢ block → in_use sb' c ≡ in_use sb c

abbrev bit : List (Option Bits) → ℕ → Bool
bit maps n = get_or (bits_of maps (n / map_bits)) (n % map_bits) false

cleared_bit : (bits : Bits) (j : ℕ) → get_or (set bits j false) j false ≡ false
cleared_bit [] j = refl
cleared_bit (b ∷ bits) zero = refl
cleared_bit (b ∷ bits) (suc j) = cleared_bit bits j

in_maps :
    (maps : List (Option Bits)) (i : ℕ) (bits : Bits)
    → get_or maps i none ≡ some bits
    → i < length maps
in_maps maps i bits e = elim (dec_lt i (length maps)) [
  | yes l ↦ l
  | no past ↦ let p = get_or-past maps i none (omega (arith, past)) in absurd (cc (p, e))
]

-- The bits behind put_bit.
module _ (maps : List (Option Bits)) (i j : ℕ) (bits : Bits)
    (e : get_or maps i none ≡ some bits) where
  map_here : bits_of (put_bit false i j maps) i ≡ set (bits_of maps i) j false
  map_here =
      rw
        (
          get_or-set_self maps i (some (set (bits_of maps i) j false)) none (in_maps maps i bits e),
          bits_of,
        )
        refl

  map_there : (k : ℕ) → k ≢ i → bits_of (put_bit false i j maps) k ≡ bits_of maps k
  map_there k ne =
      let same = get_or-set_ne maps (some (set (bits_of maps i) j false)) none (λ q. ne (sym q)) in
      rw (same, bits_of) refl

  bit_gone : get_or (bits_of (put_bit false i j maps) i) j false ≡ false
  bit_gone = rw map_here (cleared_bit (bits_of maps i) j)

  bit_kept :
      (k l : ℕ)
      → (k ≢ i) ⊎ (l ≢ j)
      → get_or (bits_of (put_bit false i j maps) k) l false ≡ get_or (bits_of maps k) l false
  bit_kept k l away = elim (ℕ_discrete k i) [
    | no ne ↦ rw (map_there k ne) refl
    | yes q ↦ elim away [
      | inl ne ↦ absurd (ne q)
      | inr ne ↦ rw (q, map_here) (get_or-set_ne (bits_of maps i) false false (λ r. ne (sym r)))
    ]
  ]

used_map :
    (maps : List (Option Bits)) (i j : ℕ)
    → get_or (bits_of maps i) j false ≡ true
    → (bits : Bits) × (get_or maps i none ≡ some bits)
used_map maps i j u = elim (Option-cases (get_or maps i none)) [
  | inr x ↦ x
  | inl e ↦ let u' = rw (bits_of, e) at u in absurd (cc u')
]

free_block_cleared :
    (cached : Option ℕ) (block : ℕ) (sb : SuperBlock) (bits : Bits)
    → ((count : ℕ) → cached ≡ some count → count ≡ 1)
    → (ltb block sb.s_firstdatazone || leb sb.s_nzones block) ≡ false
    → (let n : ℕ = block + 1 - sb.s_firstdatazone in
        get_or sb.s_zmap (n / map_bits) none ≡ some bits
        → get_or bits (n % map_bits) false ≡ true
        → free_block cached block sb
          ≡ ok (record sb { s_zmap = put_bit false (n / map_bits) (n % map_bits) sb.s_zmap }))
unfolding free_block
free_block_cleared none block sb bits alone t e u = rw (t, e, u) refl
free_block_cleared (some count) block sb bits alone t e u =
    let one = alone count refl in rw (t, one, e, u) refl

-- free_block of a block that is in use and has no other users.
pub free_block_lem :
    (cached : Option ℕ) (block : ℕ) (sb : SuperBlock)
    → ((count : ℕ) → cached ≡ some count → count ≡ 1)
    → 1 ≤ sb.s_firstdatazone
    → sb.s_firstdatazone ≤ block
    → block < sb.s_nzones
    → in_use sb block ≡ true
    → (sb' : SuperBlock) × (free_block cached block sb ≡ ok sb') × Freed block sb sb'
free_block_lem cached block sb alone first low high used =
    let n : ℕ = block + 1 - sb.s_firstdatazone in
    let i : ℕ = n / map_bits in
    let j : ℕ = n % map_bits in
    let (bits, e) = used_map sb.s_zmap i j used in
    let t : (ltb block sb.s_firstdatazone || leb sb.s_nzones block) ≡ false =
      (let a : ltb block sb.s_firstdatazone ≡ false = ground (arith, low) in
        let b : leb sb.s_nzones block ≡ false = ground (arith, high) in rw (a, b) refl) in
    let there : bits_of sb.s_zmap i ≡ bits = rw (e, bits_of) refl in
    let set_there : get_or bits j false ≡ true = rw there at used in
    let sb' : SuperBlock = record sb { s_zmap = put_bit false i j sb.s_zmap } in
    (
      sb',
      free_block_cleared cached block sb bits alone t e set_there,
      record {
        same_first = refl;
        same_nzones = refl;
        gone = bit_gone sb.s_zmap i j bits e;
        others = λ c l ne.
            bit_kept sb.s_zmap i j bits e ((c + 1 - sb.s_firstdatazone) / map_bits)
              ((c + 1 - sb.s_firstdatazone) % map_bits)
              (elim (ℕ_discrete ((c + 1 - sb.s_firstdatazone) / map_bits) i) [
                | no far ↦ inl far
                | yes same ↦ inr (λ q. ne (omega (arith, same, q, l, low, first)))
              ]);
      },
    )
