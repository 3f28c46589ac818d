-- ===== src/Fs/Zones/Allocate.antt =====
-- What allocate gives.
use linux_0_11_lab.Base.{
  Bool, List, Option, arith, false, get_or, get_or-set_ne, get_or-set_self, if◌then◌else◌, inl, inr,
  length-set, none, refl, set, some, some_injective, sym, true, ℕ, ◌%◌, ◌+◌, ◌-◌, ◌/◌, ◌<◌, ◌==◌,
  ◌^◌, ◌∙◌, ◌≡◌, ◌≢◌, ◌≤◌, ◌⊎◌,
}
use native.Mathlib.Decide.{ℕ_discrete}
use linux_0_11_lab.Fs.Bitmap.{Bits, SuperBlock, bits_of, map_bits, ok, put_bit}
use linux_0_11_lab.Fs.Bitmap.Blocks.{
  AreMaps, Clear, bits_there, block_at, here_after, new_block-free_block, was_clear, with_bit,
}
use linux_0_11_lab.Fs.Zones.{Volume, allocate}

-- The bit of a block in the zone map.
abbrev pub in_use : SuperBlock → ℕ → Bool
in_use sb block =
    let n : ℕ = block + 1 - sb.s_firstdatazone in
    get_or (bits_of sb.s_zmap (n / map_bits)) (n % map_bits) false

pub record IsVolume (v : Volume) : Type 0 where
  pub whole : AreMaps v.sb.s_zmap
  pub first : 1 ≤ v.sb.s_firstdatazone
  pub bit_0 : get_or (bits_of v.sb.s_zmap 0) 0 true ≡ true
  pub short : v.sb.s_nzones ≤ 2 ^ 16

bits_of-put_bit :
    (maps : List (Option Bits)) (i j : ℕ)
    → Clear maps i j
    → (i' : ℕ) → (bits : Bits) → get_or (put_bit true i j maps) i' none ≡ some bits
    → ((i' ≡ i) × ((c : Clear maps i j) × (bits ≡ set c.bits j true)))
      ⊎ (get_or maps i' none ≡ some bits)
bits_of-put_bit maps i j c i' bits e = elim (ℕ_discrete i' i) [
  | yes same ↦
      let e' = rw same at e in inl (same, (c, some_injective (sym e' ∙ here_after maps i j c)))
  | no ne ↦ inr (sym (get_or-set_ne maps _ none (λ q. ne (sym q))) ∙ e)
]

-- A bit of the map with the new bit.
in_use-kept :
    (maps : List (Option Bits)) (i j : ℕ)
    → Clear maps i j
    → (i' j' : ℕ) (d : Bool) → get_or (bits_of maps i') j' d ≡ true
    → get_or (bits_of (put_bit true i j maps) i') j' d ≡ true
in_use-kept maps i j c i' j' d h = elim (ℕ_discrete i' i) [
  | no ne ↦
      let there : bits_of (put_bit true i j maps) i' ≡ bits_of maps i' =
        rw (get_or-set_ne maps (some (set (bits_of maps i) j true)) none (λ q. ne (sym q)), bits_of)
          refl in
      rw there h
  | yes same ↦
      let h' = rw (same, bits_there maps i j c) at h in
      let there : bits_of (put_bit true i j maps) i ≡ set c.bits j true =
        rw (here_after maps i j c, bits_of) refl in
      rw (same, there)
        (elim (ℕ_discrete j' j) [
          | yes e ↦ rw e (get_or-set_self c.bits j true d c.in_bits)
          | no ne ↦ get_or-set_ne c.bits true d (λ q. ne (sym q)) ∙ h'
        ])
]

in_use-new :
    (maps : List (Option Bits)) (i j : ℕ) (c : Clear maps i j)
    → get_or (bits_of (put_bit true i j maps) i) j false ≡ true
in_use-new maps i j c =
    let there : bits_of (put_bit true i j maps) i ≡ set c.bits j true =
      rw (here_after maps i j c, bits_of) refl in
    rw there (get_or-set_self c.bits j true false c.in_bits)

with_bit-IsVolume :
    (v : Volume) (i j : ℕ) (words : ℕ → ℕ → ℕ)
    → Clear v.sb.s_zmap i j
    → IsVolume v
    → IsVolume (record v { sb = with_bit v.sb i j; words = words })
with_bit-IsVolume v i j words c valid = record {
  whole = λ i' bits e. elim (bits_of-put_bit v.sb.s_zmap i j c i' bits e) [
    | inl (same, (d, q)) ↦ rw q (length-set d.bits j true ∙ valid.whole i d.bits d.here)
    | inr e' ↦ valid.whole i' bits e'
  ];
  first = valid.first;
  bit_0 = in_use-kept v.sb.s_zmap i j c 0 0 true valid.bit_0;
  short = valid.short;
}

-- The answers of allocate: no block, with all words as before; or a block that was not in use, and
-- now is, whose words are 0. No other block goes out of use.
pub record Allocates (v : Volume) (block : ℕ) (v' : Volume) : Type 0 where
  pub sound : IsVolume v'
  pub same_readable : v'.readable ≡ v.readable
  pub still_used : (c : ℕ) → in_use v.sb c ≡ true → in_use v'.sb c ≡ true
  pub other_words : (c j : ℕ) → in_use v.sb c ≡ true → v'.words c j ≡ v.words c j
  pub its_words :
      ((block ≡ 0) × (v'.words ≡ v.words))
      ⊎ ((block ≢ 0)
          × (block < 2 ^ 16)
          × (in_use v.sb block ≡ false)
          × (in_use v'.sb block ≡ true)
          × ((j : ℕ) → v'.words block j ≡ 0))

no_block :
    (v : Volume) (sb : SuperBlock)
    → IsVolume (record v { sb = sb })
    → ((c : ℕ) → in_use v.sb c ≡ true → in_use sb c ≡ true)
    → Allocates v 0 (record v { sb = sb })
no_block v sb valid kept = record {
  sound = valid;
  same_readable = refl;
  still_used = kept;
  other_words = λ c j u. refl;
  its_words = inl (refl, refl);
}

pub allocate_lem :
    (v : Volume)
    → IsVolume v
    → (block : ℕ) × (v' : Volume) × (allocate v ≡ ok (block, v')) × Allocates v block v'
unfolding allocate
allocate_lem v valid = elim (new_block-free_block 1 none v.sb valid.whole valid.first valid.bit_0) [
  | inl e ↦ (0, v, rw (e, allocate) refl, no_block v v.sb valid (λ c u. u))
  | inr (inl (i, j, c, past, e)) ↦ (
    0,
    record v { sb = with_bit v.sb i j },
    rw (e, allocate) refl,
    no_block v (with_bit v.sb i j) (with_bit-IsVolume v i j v.words c valid)
        (λ b u. in_use-kept v.sb.s_zmap i j c _ _ false u),
  )
  | inr (inr (i, j, c, low, inside, e, _)) ↦
      let block : ℕ = block_at v.sb i j in
      let nz : block ≢ 0 = let f = valid.first in λ z. absurd (omega arith) in
      let small = c.in_block in
      let f = valid.first in
      let t : (block == 0) ≡ false = ground (arith, nz) in
      let n1 : (block + 1 - v.sb.s_firstdatazone) / map_bits ≡ i = omega arith in
      let n2 : (block + 1 - v.sb.s_firstdatazone) % map_bits ≡ j = omega arith in
      let unused : in_use v.sb block ≡ false = rw (n1, n2) (was_clear v.sb.s_zmap i j c) in
      let words : ℕ → ℕ → ℕ = λ b k. if b == block then 0 else v.words b k in
      let self : (block == block) ≡ true = ground arith in
      (
        block,
        record v { sb = with_bit v.sb i j; words = words },
        rw (e, allocate, t) refl,
        record {
          sound = with_bit-IsVolume v i j words c valid;
          same_readable = refl;
          still_used = λ b u. in_use-kept v.sb.s_zmap i j c _ _ false u;
          other_words = λ b k u. elim (ℕ_discrete b block) [
            | no ne ↦ let z : (b == block) ≡ false = ground arith in rw z refl
            | yes same ↦ let u' = rw same at u in absurd (cc (u', unused))
          ];
          its_words = inr (
            nz,
            (let s = valid.short in omega arith),
            unused,
            rw (n1, n2) (in_use-new v.sb.s_zmap i j c),
            λ k. rw self refl,
          );
        },
      )
]
