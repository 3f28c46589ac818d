-- ===== src/Fs/Truncate/Rank.antt =====
-- The order in which truncate comes to the blocks of a file.
use linux_0_11_lab.Base.{
  Bool-cases, ap, arith, false, get_or-past, if◌then◌else◌, inl, inr, not, refl, sym, ℕ, ◌*◌, ◌+◌,
  ◌<◌, ◌==◌, ◌||◌, ◌∙◌, ◌≡◌, ◌≢◌, ◌≤◌, ◌⊎◌,
}
use native.Mathlib.Decide.{dec_lt, ℕ_discrete}
use linux_0_11_lab.Fs.Zones.{File, zone}
use linux_0_11_lab.Fs.Zones.Lookup.{word_in}
use linux_0_11_lab.Fs.Zones.Tree.{IsTree, Node, name, top, word1, word2, word3}

abbrev pub rank : Node → ℕ
rank (top k) = if k == 8 then 263176 else if k == 7 then 519 else k
rank (word1 i) = 7 + i
rank (word2 j) = 520 + j * 513 + 512
rank (word3 j l) = 520 + j * 513 + l

abbrev pub InRange : Node → Type 0
InRange (top k) = k < 9
InRange (word1 i) = i < 512
InRange (word2 j) = j < 512
InRange (word3 j l) = (j < 512) × (l < 512)

module _ (f : File) (tree : IsTree f) (short : (b i : ℕ) → 512 ≤ i → f.volume.words b i ≡ 0) where
  word_in-short : (b i : ℕ) → 512 ≤ i → word_in b i f ≡ 0
  word_in-short b i l = elim (Bool-cases (b == 0 || not (f.volume.readable b))) [
    | inl t ↦ rw t refl
    | inr t ↦ rw t (short b i l)
  ]

  word_range : (b i : ℕ) → word_in b i f ≢ 0 → i < 512
  word_range b i nz = elim (dec_lt i 512) [
    | yes l ↦ l
    | no past ↦ absurd (nz (word_in-short b i (omega (arith, past))))
  ]

  -- A node that names a block is one that truncate comes to.
  pub in_range : (x : Node) → name x f ≢ 0 → InRange x
  in_range (top k) nz = elim (dec_lt k 9) [
    | yes l ↦ l
    | no past ↦
        let n = tree.zones in absurd (nz (get_or-past f.inode.i_zone k 0 (omega (arith, n, past))))
  ]
  in_range (word1 i) nz = word_range (zone 7 f) i nz
  in_range (word2 j) nz = word_range (zone 8 f) j nz
  in_range (word3 j l) nz = (
    word_range (zone 8 f) j (λ z. nz (ap (λ b. word_in b l f) z)),
    word_range (word_in (zone 8 f) j f) l nz,
  )

abbrev top_rank : ℕ → ℕ
top_rank k = if k == 8 then 263176 else if k == 7 then 519 else k

top_cases :
    (k : ℕ)
    → k < 9
    → ((k < 7) × (top_rank k ≡ k))
      ⊎ ((k ≡ 7) × (top_rank k ≡ 519))
      ⊎ ((k ≡ 8) × (top_rank k ≡ 263176))
top_cases k l = elim (dec_lt k 7) [
  | yes low ↦
      let a : (k == 8) ≡ false = ground (arith, low) in
      let b : (k == 7) ≡ false = ground (arith, low) in inl (low, rw (a, b) refl)
  | no high ↦ elim (ℕ_discrete k 7) [
    | yes e ↦ inr (inl (e, rw e refl))
    | no ne ↦ let e : k ≡ 8 = omega (arith, high, ne, l) in inr (inr (e, rw e refl))
  ]
]

-- A top node against the ranks of the others.
top-apart : (k r : ℕ) → k < 9 → 7 ≤ r → r ≢ 519 → r < 263176 → top_rank k ≢ r
top-apart k r l low ne high e = elim (top_cases k l) [
  | inl (a, b) ↦ omega (arith, a, b, e, low)
  | inr (inl (a, b)) ↦ ne (sym e ∙ b)
  | inr (inr (a, b)) ↦ omega (arith, b, e, high)
]

top_rank_injective : (k m : ℕ) → k < 9 → m < 9 → top_rank k ≡ top_rank m → k ≡ m
top_rank_injective k m l l' e = elim (top_cases k l) [
  | inl (a, b) ↦ elim (top_cases m l') [
    | inl (a', b') ↦ sym b ∙ e ∙ b'
    | inr (inl (a', b')) ↦ absurd (omega (arith, a, b, b', e))
    | inr (inr (a', b')) ↦ absurd (omega (arith, a, b, b', e))
  ]
  | inr (inl (a, b)) ↦ elim (top_cases m l') [
    | inl (a', b') ↦ absurd (omega (arith, a', b, b', e))
    | inr (inl (a', b')) ↦ a ∙ sym a'
    | inr (inr (a', b')) ↦ absurd (omega (arith, b, b', e))
  ]
  | inr (inr (a, b)) ↦ elim (top_cases m l') [
    | inl (a', b') ↦ absurd (omega (arith, a', b, b', e))
    | inr (inl (a', b')) ↦ absurd (omega (arith, b, b', e))
    | inr (inr (a', b')) ↦ a ∙ sym a'
  ]
]

pub rank_injective : (x y : Node) → InRange x → InRange y → rank x ≡ rank y → x ≡ y
rank_injective (top k) (top m) a b e = ap top (top_rank_injective k m a b e)
rank_injective (top k) (word1 i) a b e =
    absurd (top-apart k (7 + i) a (omega arith) (λ q. omega (arith, q, b)) (omega (arith, b)) e)
rank_injective (top k) (word2 j) a b e =
    absurd (
      top-apart k (520 + j * 513 + 512) a (omega arith) (λ q. omega (arith, q)) (omega (arith, b))
        e)
rank_injective (top k) (word3 j l) a (b, b') e = absurd (
    top-apart k (520 + j * 513 + l) a (omega arith) (λ q. omega (arith, q)) (omega (arith, b, b'))
      e)
rank_injective (word1 i) (top k) b a e =
    absurd
      (top-apart k (7 + i) a (omega arith) (λ q. omega (arith, q, b)) (omega (arith, b)) (sym e))
rank_injective (word1 i) (word1 j) a b e = ap word1 (omega (arith, e))
rank_injective (word1 i) (word2 j) a b e = absurd (omega (arith, a, e))
rank_injective (word1 i) (word3 j l) a b e = absurd (omega (arith, a, e))
rank_injective (word2 j) (top k) b a e = absurd (
    top-apart k (520 + j * 513 + 512) a (omega arith) (λ q. omega (arith, q)) (omega (arith, b))
      (sym e))
rank_injective (word2 j) (word1 i) b a e = absurd (omega (arith, a, e))
rank_injective (word2 j) (word2 i) a b e = ap word2 (omega (arith, e))
rank_injective (word2 j) (word3 i l) a (b, b') e = absurd (omega (arith, e, b'))
rank_injective (word3 j l) (top k) (b, b') a e = absurd (
    top-apart k (520 + j * 513 + l) a (omega arith) (λ q. omega (arith, q)) (omega (arith, b, b'))
      (sym e))
rank_injective (word3 j l) (word1 i) b a e = absurd (omega (arith, a, e))
rank_injective (word3 i l) (word2 j) (b, b') a e = absurd (omega (arith, e, b'))
rank_injective (word3 j l) (word3 i k) (a, a') (b, b') e =
    let p : j ≡ i = omega (arith, e, a', b') in let q : l ≡ k = omega (arith, e, p) in cc (p, q)
