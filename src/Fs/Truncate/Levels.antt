-- ===== src/Fs/Truncate/Levels.antt =====
-- The levels of words that truncate goes through.
use linux_0_11_lab.Base.{
  Bool-cases, Option, ap, arith, false, if◌then◌else◌, inl, inr, refl, suc, sym, true, zero, ℕ, ◌+◌,
  ◌<◌, ◌==◌, ◌∙◌, ◌≡◌,
}
use mathlib.Core.Path.{subst}
use native.Mathlib.Decide.{ℕ_discrete}
use linux_0_11_lab.Fs.Bitmap.{Outcome, SuperBlock, ok}
use linux_0_11_lab.Fs.Truncate.{each_word, free_cached, free_ind, free_words}
use linux_0_11_lab.Fs.Truncate.Rank.{InRange, in_range, rank, rank_injective}
use linux_0_11_lab.Fs.Truncate.Stage.{IsAlone, Stage, free_next, pass_over}
use linux_0_11_lab.Fs.Zones.{File, and_then}
use linux_0_11_lab.Fs.Zones.Lookup.{word_in}
use linux_0_11_lab.Fs.Zones.Tree.{Node, name}

module _ (cached : ℕ → Option ℕ) (f : File) (is : IsAlone cached f) where
  abbrev pub Goes : Outcome SuperBlock → ℕ → Type 0
  Goes o r = (sb' : SuperBlock) × (o ≡ ok sb') × Stage f r sb'

  -- A node that names no block.
  pub skip_node :
      (x : Node) (sb : SuperBlock)
      → InRange x
      → name x f ≡ 0
      → Stage f (rank x) sb
      → Stage f (suc (rank x)) sb
  skip_node x sb range z st =
      pass_over f (rank x) (suc (rank x)) sb (omega arith)
        (λ y ny l. elim (ℕ_discrete (rank y) (rank x)) [
          | yes q ↦
              let same = rank_injective y x (in_range f is.tree is.short y ny) range q in
              absurd (ny (ap (λ n. name n f) same ∙ z))
          | no ne ↦ omega (arith, l, ne)
        ])
        st

  pub free_node :
      (x : Node) (b : ℕ) (sb : SuperBlock)
      → InRange x
      → name x f ≡ b
      → Stage f (rank x) sb
      → Goes (if b == 0 then ok sb else free_cached cached b sb) (suc (rank x))
  free_node x b sb range e st = elim (ℕ_discrete b 0) [
    | yes z ↦ (sb, rw z refl, skip_node x sb range (e ∙ z) st)
    | no nz ↦
        let t : (b == 0) ≡ false = ground (arith, nz) in
        let (sb', e', st') = free_next cached f is x sb (λ q. nz (sym e ∙ q)) st in
        (sb', rw t (ap (λ c. free_cached cached c sb) (sym e) ∙ e'), st')
  ]

  pub each_word_lem :
      (free : ℕ → SuperBlock → Outcome SuperBlock) (p : ℕ → ℕ) (ranks : ℕ → ℕ) (n i : ℕ)
      → ((k : ℕ)
          → k < i + n
          → (sb : SuperBlock) → Stage f (ranks k) sb
          → Goes (if p k == 0 then ok sb else free (p k) sb) (ranks (k + 1)))
      → (sb : SuperBlock) → Stage f (ranks i) sb
      → Goes (each_word free p n i sb) (ranks (i + n))
  unfolding each_word and_then
  each_word_lem free p ranks zero i item sb st =
      (sb, refl, subst (λ r. Stage f (ranks r) sb) (let e : i ≡ i + 0 = omega arith in e) st)
  each_word_lem free p ranks (suc n) i item sb st =
      let (sb1, e1, st1) = item i (omega arith) sb st in
      let (sb2, e2, st2) =
        each_word_lem free p ranks n (i + 1) (λ k l. item k (omega (arith, l))) sb1 st1 in
      (
        sb2,
        rw e1 e2,
        subst (λ r. Stage f (ranks r) sb2) (let e : i + 1 + n ≡ i + suc n = omega arith in e) st2,
      )

  -- Nodes that name no blocks, one behind the other.
  pub skip_all :
      (ranks : ℕ → ℕ) (n i : ℕ)
      → ((k : ℕ)
          → k < i + n
          → (sb : SuperBlock) → Stage f (ranks k) sb
          → Stage f (ranks (k + 1)) sb)
      → (sb : SuperBlock) → Stage f (ranks i) sb
      → Stage f (ranks (i + n)) sb
  skip_all ranks zero i item sb st =
      subst (λ r. Stage f (ranks r) sb) (let e : i ≡ i + 0 = omega arith in e) st
  skip_all ranks (suc n) i item sb st =
      subst (λ r. Stage f (ranks r) sb) (let e : i + 1 + n ≡ i + suc n = omega arith in e)
        (skip_all ranks n (i + 1) (λ k l. item k (omega (arith, l))) sb
          (item i (omega arith) sb st))

  free_words_bad :
      (free : ℕ → SuperBlock → Outcome SuperBlock) (b : ℕ) (sb sb2 : SuperBlock)
      → (b == 0) ≡ false
      → f.volume.readable b ≡ false
      → free_cached cached b sb ≡ ok sb2
      → free_words cached free f.volume b sb ≡ ok sb2
  unfolding and_then
  free_words_bad free b sb sb2 t bad e = rw (t, bad) e

  free_words_good :
      (free : ℕ → SuperBlock → Outcome SuperBlock) (b : ℕ) (sb sb1 sb2 : SuperBlock)
      → (b == 0) ≡ false
      → f.volume.readable b ≡ true
      → each_word free (f.volume.words b) 512 0 sb ≡ ok sb1
      → free_cached cached b sb1 ≡ ok sb2
      → free_words cached free f.volume b sb ≡ ok sb2
  unfolding and_then
  free_words_good free b sb sb1 sb2 t good e1 e2 = rw (t, good, e1) e2

  free_words_none :
      (free : ℕ → SuperBlock → Outcome SuperBlock) (b : ℕ) (sb : SuperBlock)
      → b ≡ 0
      → free_words cached free f.volume b sb ≡ ok sb
  free_words_none free b sb z = rw z refl

  -- A block of words, with the ranks that its words begin at.
  pub free_words_lem :
      (free : ℕ → SuperBlock → Outcome SuperBlock) (own : Node) (ranks : ℕ → ℕ)
      → InRange own
      → rank own ≡ ranks 512
      → ((k : ℕ)
          → k < 512
          → (sb : SuperBlock) → Stage f (ranks k) sb
          → Goes
              (if word_in (name own f) k f == 0 then ok sb else free (word_in (name own f) k f) sb)
              (ranks (k + 1)))
      → ((k : ℕ)
          → k < 512
          → word_in (name own f) k f ≡ 0
          → (sb : SuperBlock) → Stage f (ranks k) sb
          → Stage f (ranks (k + 1)) sb)
      → (sb : SuperBlock) → Stage f (ranks 0) sb
      → Goes (free_words cached free f.volume (name own f) sb) (suc (rank own))
  free_words_lem free own ranks range at item skip sb st = elim (ℕ_discrete (name own f) 0) [
    | yes z ↦
        let st' = skip_all ranks 512 0 (λ k l. skip k l (rw z refl)) sb st in
        (sb, free_words_none free (name own f) sb z, skip_node own sb range z (rw at st'))
    | no nz ↦
        let t : (name own f == 0) ≡ false = ground (arith, nz) in
        elim (Bool-cases (f.volume.readable (name own f))) [
          | inr bad ↦
              let none_there : (k : ℕ) → word_in (name own f) k f ≡ 0 = λ k. rw (bad, t) refl in
              let st' = skip_all ranks 512 0 (λ k l. skip k l (none_there k)) sb st in
              let (sb2, e2, st2) = free_next cached f is own sb nz (rw at st') in
              (sb2, free_words_bad free (name own f) sb sb2 t bad e2, st2)
          | inl good ↦
              let word : (k : ℕ) → word_in (name own f) k f ≡ f.volume.words (name own f) k =
                λ k. rw (t, good) refl in
              let (sb1, e1, st1) =
                each_word_lem free (f.volume.words (name own f)) ranks 512 0
                  (λ k l sb0 s.
                    subst (λ w. Goes (if w == 0 then ok sb0 else free w sb0) (ranks (k + 1)))
                      (word k) (item k l sb0 s))
                  sb st in
              let (sb2, e2, st2) = free_next cached f is own sb1 nz (rw at st1) in
              (sb2, free_words_good free (name own f) sb sb1 sb2 t good e1 e2, st2)
        ]
  ]

  -- One level of words: the children of `own`.
  pub free_ind_lem :
      (own : Node) (child : ℕ → Node) (r : ℕ)
      → InRange own
      → rank own ≡ r + 512
      → ((k : ℕ)
          → k < 512
          → InRange (child k)
            × (rank (child k) ≡ r + k)
            × (name (child k) f ≡ word_in (name own f) k f))
      → (sb : SuperBlock) → Stage f r sb
      → Goes (free_ind cached f.volume (name own f) sb) (suc (rank own))
  free_ind_lem own child r range at children sb st =
      free_words_lem (free_cached cached) own (λ k. r + k) range at
        (λ k l sb0 s.
          let (in_r, rk, e) = children k l in
          let (sb1, e1, s1) = free_node (child k) (word_in (name own f) k f) sb0 in_r e (rw rk s) in
          (sb1, e1, subst (λ q. Stage f q sb1) (ap suc rk ∙ omega arith) s1))
        (λ k l z sb0 s.
          let (in_r, rk, e) = children k l in
          subst (λ q. Stage f q sb0) (ap suc rk ∙ omega arith)
            (skip_node (child k) sb0 in_r (e ∙ z) (rw rk s)))
        sb (subst (λ q. Stage f q sb) (let e : r ≡ r + 0 = omega arith in e) st)
