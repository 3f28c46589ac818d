-- ===== src/Fs/Truncate/Stage.antt =====
-- The map of zones while truncate runs.
use linux_0_11_lab.Base.{
  Option, ap, arith, false, inl, inr, refl, some, suc, sym, true, ℕ, ◌<◌, ◌∙◌, ◌≡◌, ◌≢◌, ◌≤◌,
}
use native.Mathlib.Decide.{dec_lt, ℕ_discrete}
use linux_0_11_lab.Fs.Bitmap.{SuperBlock, ok}
use linux_0_11_lab.Fs.Truncate.{free_cached}
use linux_0_11_lab.Fs.Truncate.Free.{free_block_lem}
use linux_0_11_lab.Fs.Truncate.Rank.{in_range, rank, rank_injective}
use linux_0_11_lab.Fs.Zones.{File}
use linux_0_11_lab.Fs.Zones.Allocate.{in_use}
use linux_0_11_lab.Fs.Zones.Tree.{IsTree, Node, name}

-- A file whose blocks form a tree in the data zone, with no words past the ends of blocks; and no buffer
-- of its blocks has another user.
pub record IsAlone (cached : ℕ → Option ℕ) (f : File) : Type 0 where
  pub tree : IsTree f
  pub inside :
      (x : Node)
      → name x f ≢ 0
      → (f.volume.sb.s_firstdatazone ≤ name x f) × (name x f < f.volume.sb.s_nzones)
  pub short : (b i : ℕ) → 512 ≤ i → f.volume.words b i ≡ 0
  pub unshared :
      (x : Node) → name x f ≢ 0 → (count : ℕ) → cached (name x f) ≡ some count → count ≡ 1

-- The blocks of rank below `r` are free, the others of the file are in use, and so are all that were.
pub record Stage (f : File) (r : ℕ) (sb : SuperBlock) : Type 0 where
  pub same_first : sb.s_firstdatazone ≡ f.volume.sb.s_firstdatazone
  pub same_nzones : sb.s_nzones ≡ f.volume.sb.s_nzones
  pub gone : (x : Node) → name x f ≢ 0 → rank x < r → in_use sb (name x f) ≡ false
  pub left : (x : Node) → name x f ≢ 0 → r ≤ rank x → in_use sb (name x f) ≡ true
  pub others :
      (c : ℕ)
      → f.volume.sb.s_firstdatazone ≤ c
      → ((x : Node) → name x f ≢ 0 → name x f ≢ c)
      → in_use sb c ≡ in_use f.volume.sb c

pub start_Stage : (cached : ℕ → Option ℕ) (f : File) → IsAlone cached f → Stage f 0 f.volume.sb
start_Stage cached f is = record {
  same_first = refl;
  same_nzones = refl;
  gone = λ x nz l. absurd (omega (arith, l));
  left = λ x nz l. elim (is.tree.used x) [ inl z ↦ absurd (nz z) | inr u ↦ u ];
  others = λ c l far. refl;
}

-- Ranks that no block has.
pub pass_over :
    (f : File) (r s : ℕ) (sb : SuperBlock)
    → r ≤ s
    → ((x : Node) → name x f ≢ 0 → r ≤ rank x → s ≤ rank x)
    → Stage f r sb
    → Stage f s sb
pass_over f r s sb l empty_ranks st = record {
  same_first = st.same_first;
  same_nzones = st.same_nzones;
  gone = λ x nz below. elim (dec_lt (rank x) r) [
    | yes b ↦ st.gone x nz b
    | no a ↦ let h = empty_ranks x nz (omega (arith, a)) in absurd (omega (arith, h, below))
  ];
  left = λ x nz above. st.left x nz (omega (arith, above, l));
  others = st.others;
}

module _ (cached : ℕ → Option ℕ) (f : File) (is : IsAlone cached f) where
  -- The next node.
  pub free_next :
      (x : Node) (sb : SuperBlock)
      → name x f ≢ 0
      → Stage f (rank x) sb
      → (sb' : SuperBlock) × (free_cached cached (name x f) sb ≡ ok sb')
        × Stage f (suc (rank x)) sb'
  free_next x sb nz st =
      let (low, high) = is.inside x nz in
      let same = st.same_first in
      let same' = st.same_nzones in
      let first = is.tree.volume.first in
      let (sb', e, freed) =
        free_block_lem (cached (name x f)) (name x f) sb (is.unshared x nz)
          (omega (arith, first, same)) (omega (arith, low, same)) (omega (arith, high, same'))
          (st.left x nz (omega arith)) in
      let range = in_range f is.tree is.short in
      let kept : (y : Node)
          → name y f ≢ 0
          → rank y ≢ rank x
          → in_use sb' (name y f) ≡ in_use sb (name y f) =
        λ y ny ne.
          let (ly, _) = is.inside y ny in
          freed.others (name y f) (omega (arith, ly, same))
            (λ q. ne (ap rank (is.tree.distinct y x ny q))) in
      (
        sb',
        e,
        record {
          same_first = freed.same_first ∙ st.same_first;
          same_nzones = freed.same_nzones ∙ st.same_nzones;
          gone = λ y ny l. elim (ℕ_discrete (rank y) (rank x)) [
            | yes q ↦
                ap (λ n. in_use sb' (name n f)) (rank_injective y x (range y ny) (range x nz) q)
                ∙ freed.gone
            | no ne ↦ kept y ny ne ∙ st.gone y ny (omega (arith, l, ne))
          ];
          left = λ y ny l. kept y ny (λ q. omega (arith, q, l)) ∙ st.left y ny (omega (arith, l));
          others = λ c l far.
              freed.others c (omega (arith, l, same)) (λ q. far x nz (sym q)) ∙ st.others c l far;
        },
      )
