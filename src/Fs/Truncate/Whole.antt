-- ===== src/Fs/Truncate/Whole.antt =====
-- truncate frees the blocks of a file, and no others.
use linux_0_11_lab.Base.{
  Bool-cases, Option, ap, arith, false, if◌then◌else◌, inl, inr, refl, suc, sym, true, ℕ, ◌*◌, ◌+◌,
  ◌<◌, ◌==◌, ◌∙◌, ◌≡◌, ◌≢◌, ◌≤◌,
}
use mathlib.Core.Path.{subst}
use native.Mathlib.Decide.{ℕ_discrete}
use linux_0_11_lab.Fs.Bitmap.{SuperBlock, ok}
use linux_0_11_lab.Fs.Truncate.{
  each_word, emptied, free_cached, free_dind, free_ind, has_blocks, truncate, zone,
}
use linux_0_11_lab.Fs.Truncate.Levels.{
  Goes, each_word_lem, free_ind_lem, free_node, free_words_lem, skip_all, skip_node,
}
use linux_0_11_lab.Fs.Truncate.Rank.{InRange, in_range, rank}
use linux_0_11_lab.Fs.Truncate.Stage.{IsAlone, Stage, start_Stage}
use linux_0_11_lab.Fs.Zones.{File, and_then}
use linux_0_11_lab.Fs.Zones.Allocate.{in_use}
use linux_0_11_lab.Fs.Zones.Lookup.{word_in}
use linux_0_11_lab.Fs.Zones.Tree.{Node, name, top, word1, word2, word3}

module _ (cached : ℕ → Option ℕ) (f : File) (is : IsAlone cached f) where
  abbrev second_rank : ℕ → ℕ
  second_rank k = 520 + k * 513

  below_second : (k : ℕ) → k < 512 → (l : ℕ) → l < 512 → InRange (word3 k l)
  below_second k a l b = (a, b)

  second_none :
      (k : ℕ)
      → k < 512
      → name (word2 k) f ≡ 0
      → (sb : SuperBlock) → Stage f (second_rank k) sb
      → Stage f (second_rank (k + 1)) sb
  second_none k l z sb st =
      let begin : Stage f (second_rank k + 0) sb = subst (λ q. Stage f q sb) (omega arith) st in
      let st' =
        skip_all cached f is (λ i. second_rank k + i) 512 0
          (λ i h sb0 s.
            subst (λ q. Stage f q sb0) (omega arith)
              (skip_node cached f is (word3 k i) sb0 (below_second k l i h)
                (ap (λ b. word_in b i f) z) s))
          sb begin in
      subst (λ q. Stage f q sb) (omega arith) (skip_node cached f is (word2 k) sb l z st')

  second_some :
      (k : ℕ)
      → k < 512
      → (sb : SuperBlock) → Stage f (second_rank k) sb
      → Goes cached f is (free_ind cached f.volume (name (word2 k) f) sb) (second_rank (k + 1))
  second_some k l sb st =
      let (sb1, e, st1) =
        free_ind_lem cached f is (word2 k) (word3 k) (second_rank k) l refl
          (λ i h. (below_second k l i h, refl, refl)) sb st in
      (sb1, e, subst (λ q. Stage f q sb1) (omega arith) st1)

  word_there :
      (b : ℕ) (sb sb1 : SuperBlock)
      → (b == 0) ≡ false
      → free_ind cached f.volume b sb ≡ ok sb1
      → (if b == 0 then ok sb else free_ind cached f.volume b sb) ≡ ok sb1
  word_there b sb sb1 t e = ap (λ c. if c then ok sb else free_ind cached f.volume b sb) t ∙ e

  second_word :
      (k : ℕ)
      → k < 512
      → (b : ℕ) → name (word2 k) f ≡ b
      → (sb : SuperBlock) → Stage f (second_rank k) sb
      → Goes cached f is
          (if b == 0 then ok sb else free_ind cached f.volume b sb)
          (second_rank (k + 1))
  second_word k l b e sb st = elim (ℕ_discrete b 0) [
    | yes z ↦ (sb, rw z refl, second_none k l (e ∙ z) sb st)
    | no nz ↦
        let t : (b == 0) ≡ false = ground (arith, nz) in
        let (sb1, e1, st1) = second_some k l sb st in
        (sb1, word_there b sb sb1 t (ap (λ c. free_ind cached f.volume c sb) (sym e) ∙ e1), st1)
  ]

  free_dind_lem :
      (sb : SuperBlock)
      → Stage f 520 sb
      → Goes cached f is (free_dind cached f.volume (zone 8 f) sb) 263177
  free_dind_lem sb st =
      free_words_lem cached f is (free_ind cached f.volume) (top 8) second_rank (omega arith) refl
        (λ k l sb0 s. second_word k l (word_in (zone 8 f) k f) refl sb0 s)
        (λ k l z sb0 s. second_none k l z sb0 s) sb st

  rank-top : (k : ℕ) → k < 7 → rank (top k) ≡ k
  rank-top k l =
      let a : (k == 8) ≡ false = ground (arith, l) in
      let b : (k == 7) ≡ false = ground (arith, l) in rw (a, b) refl

  zones_lem :
      (sb : SuperBlock)
      → Stage f 0 sb
      → Goes cached f is (each_word (free_cached cached) (λ k. zone k f) 7 0 sb) 7
  zones_lem sb st =
      each_word_lem cached f is (free_cached cached) (λ k. zone k f) (λ k. k) 7 0
        (λ k l sb0 s.
          let low = rank-top k l in
          let (sb1, e1, s1) =
            free_node cached f is (top k) (zone k f) sb0 (omega (arith, l)) refl (rw low s) in
          (sb1, e1, subst (λ q. Stage f q sb1) (ap suc low ∙ omega arith) s1))
        sb st

  rank_bound : (x : Node) → InRange x → rank x < 263177
  rank_bound (top k) l = elim (Bool-cases (k == 8)) [
    | inl t ↦ rw t (omega arith)
    | inr t ↦ elim (Bool-cases (k == 7)) [
      | inl u ↦ rw (t, u) (omega arith)
      | inr u ↦ rw (t, u) (omega (arith, l))
    ]
  ]
  rank_bound (word1 i) l = omega (arith, l)
  rank_bound (word2 j) l = omega (arith, l)
  rank_bound (word3 j k) (l, l') = omega (arith, l, l')

-- `f'` is `f` without its blocks.
pub record Truncated (now : ℕ) (f f' : File) : Type 0 where
  pub emptied_inode : f'.inode ≡ emptied now f.inode
  pub gone : (x : Node) → name x f ≢ 0 → in_use f'.volume.sb (name x f) ≡ false
  pub others :
      (c : ℕ)
      → f.volume.sb.s_firstdatazone ≤ c
      → ((x : Node) → name x f ≢ 0 → name x f ≢ c)
      → in_use f'.volume.sb c ≡ in_use f.volume.sb c
  pub same_words : f'.volume.words ≡ f.volume.words

-- truncate of a directory or a regular file whose blocks form a tree in the data zone and are in the
-- buffers of nobody else does not fail. It leaves an inode without blocks and with size 0. Every block
-- of the file is then free in the map of zones, also those that only blocks of numbers name, and every
-- other block of the data zone is as it was.
pub truncate_lem :
    (cached : ℕ → Option ℕ) (now : ℕ) (f : File)
    → IsAlone cached f
    → has_blocks f.inode.i_mode ≡ true
    → (f' : File) × (truncate cached now f ≡ ok f') × Truncated now f f'
unfolding truncate and_then
truncate_lem cached now f is mode =
    let (sb1, e1, s1) = zones_lem cached f is f.volume.sb (start_Stage cached f is) in
    let (sb2, e2, s2) =
      free_ind_lem cached f is (top 7) word1 7 (omega arith) refl (λ k l. (l, refl, refl)) sb1 s1 in
    let (sb3, e3, s3) = free_dind_lem cached f is sb2 s2 in
    (
      record { inode = emptied now f.inode; volume = record f.volume { sb = sb3 } },
      rw (mode, e1, and_then, e2, and_then, e3) refl,
      record {
        emptied_inode = refl;
        gone = λ x nz. s3.gone x nz (rank_bound cached f is x (in_range f is.tree is.short x nz));
        others = s3.others;
        same_words = refl;
      },
    )
