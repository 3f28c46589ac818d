-- ===== src/Fs/Zones/Grown.antt =====
-- What one step of create_block makes of the tree of a file.
use linux_0_11_lab.Base.{
  ap, arith, get_or, inl, inr, length, refl, sym, true, ℕ, ◌<◌, ◌∙◌, ◌≡◌, ◌≢◌, ◌⊎◌,
}
use native.Mathlib.Decide.{ℕ_discrete}
use linux_0_11_lab.Fs.Bitmap.{ok}
use linux_0_11_lab.Fs.Zones.{File, in_block, need_zone, zone}
use linux_0_11_lab.Fs.Zones.Allocate.{in_use}
use linux_0_11_lab.Fs.Zones.Kept.{word_kept}
use linux_0_11_lab.Fs.Zones.Lookup.{word_in}
use linux_0_11_lab.Fs.Zones.Steps.{Step, in_block_lem, need_zone_lem}
use linux_0_11_lab.Fs.Zones.Tree.{
  IsTree, Node, Node-discrete, has_parent, is_data, name, name-parent, parent, parent-not_data,
  parent-place_injective, place, top, word1, word2, word3,
}

-- Node `g` may have got a new block, and all else is as it was.
pub record Grown (g : Node) (f f' : File) : Type 0 where
  pub step : Step (name g f) f (name g f') f'
  pub same_count : length f'.inode.i_zone ≡ length f.inode.i_zone
  pub same_size : f'.inode.i_size ≡ f.inode.i_size
  pub others : (x : Node) → x ≢ g → name x f' ≡ name x f
  pub words :
      (x : Node)
      → is_data x ≡ true
      → name x f ≢ 0
      → (i : ℕ) → f'.volume.words (name x f) i ≡ f.volume.words (name x f) i

module _ (f f' : File) (tree : IsTree f)
    (same_readable : f'.volume.readable ≡ f.volume.readable) where
  abbrev WordKept : Node → Type 0
  WordKept x =
      name (parent x) f ≢ 0
      → in_use f.volume.sb (name (parent x) f) ≡ true
      → f'.volume.words (name (parent x) f) (place x) ≡ f.volume.words (name (parent x) f) (place x)

  -- The word of a node whose parent's block is the same and keeps the word.
  keep :
      (x : Node)
      → has_parent x ≡ true
      → name (parent x) f' ≡ name (parent x) f
      → WordKept x
      → name x f' ≡ name x f
  keep x h same word =
      name-parent x f' h
      ∙ ap (λ b. word_in b (place x) f') same
      ∙ go (name (parent x) f) word (tree.used (parent x))
      ∙ sym (name-parent x f h)
    where
      go :
          (b : ℕ)
          → (b ≢ 0
              → in_use f.volume.sb b ≡ true
              → f'.volume.words b (place x) ≡ f.volume.words b (place x))
          → (b ≡ 0) ⊎ (in_use f.volume.sb b ≡ true)
          → word_in b (place x) f' ≡ word_in b (place x) f
      go b w (inl z) = rw z refl
      go b w (inr u) = elim (ℕ_discrete b 0) [
        | yes z ↦ rw z refl
        | no nz ↦ rw (same_readable, w nz u) refl
      ]

  -- The nodes besides `g`, if its name is a step's and the words that others read are kept.
  module _ (g : Node) (r : ℕ) (s : Step (name g f) f r f') (here : name g f' ≡ r)
      (tops : (k : ℕ) → top k ≢ g → zone k f' ≡ zone k f)
      (cells : (x : Node) → has_parent x ≡ true → x ≢ g → WordKept x) where
    child_kept :
        (x : Node)
        → has_parent x ≡ true
        → x ≢ g
        → (parent x ≢ g → name (parent x) f' ≡ name (parent x) f)
        → name x f' ≡ name x f
    child_kept x h ne above = elim (Node-discrete (parent x) g) [
      | no away ↦ keep x h (above away) (cells x h ne)
      | yes e ↦
          name-parent x f' h
          ∙ ap (λ p. word_in (name p f') (place x) f') e
          ∙ ap (λ b. word_in b (place x) f') here
          ∙ word_kept (name g f) f r f' (place x) s
          ∙ sym (ap (λ p. word_in (name p f) (place x) f) e)
          ∙ sym (name-parent x f h)
    ]

    others_kept : (x : Node) → x ≢ g → name x f' ≡ name x f
    others_kept (top k) ne = tops k ne
    others_kept (word1 i) ne = child_kept (word1 i) refl ne (tops 7)
    others_kept (word2 j) ne = child_kept (word2 j) refl ne (tops 8)
    others_kept (word3 j l) ne =
        child_kept (word3 j l) refl ne (λ away. child_kept (word2 j) refl away (tops 8))

-- The step for a zone.
pub zone-Grown :
    (now k : ℕ) (f : File)
    → IsTree f
    → k < 9
    → (r : ℕ) × (f' : File) × (need_zone true now k f ≡ ok (r, f'))
      × Grown (top k) f f'
      × (name (top k) f' ≡ r)
zone-Grown now k f tree l =
    let (r, f', e, s, here, kept) =
      need_zone_lem now k f tree.volume (let n = tree.zones in omega arith) in
    (
      r,
      f',
      e,
      record {
        step = rw here s;
        same_count = kept.same_count;
        same_size = kept.same_size;
        others =
            others_kept f f' tree s.same_readable (top k) r s here
              (λ i ne. kept.other_zones i (λ q. ne (ap top q)))
              (λ x h ne nz u. kept.words (name (parent x) f) (place x) u);
        words = λ x d nz i. elim (tree.used x) [
          | inl z ↦ absurd (nz z)
          | inr u ↦ kept.words (name x f) i u
        ];
      },
      here,
    )

-- The step for a word.
pub word-Grown :
    (g : Node) (f : File)
    → IsTree f
    → has_parent g ≡ true
    → (r : ℕ) × (f' : File) × (in_block true (name (parent g) f) (place g) f ≡ ok (r, f'))
      × Grown g f f'
      × (name g f' ≡ r)
word-Grown g f tree h =
    let (r, f', e, s, inode, here, others) =
      in_block_lem (name (parent g) f) (place g) f tree.volume (tree.used (parent g)) in
    let s' : Step (name g f) f r f' = rw (sym (name-parent g f h)) at s in
    let tops : (k : ℕ) → top k ≢ g → zone k f' ≡ zone k f =
      λ k ne. ap (λ i. get_or i.i_zone k 0) inode in
    let cells : (x : Node) → has_parent x ≡ true → x ≢ g → WordKept f f' tree s.same_readable x =
      λ x hx ne nz u.
        others (name (parent x) f) (place x) u (elim (ℕ_discrete (place x) (place g)) [
          | no away ↦ inr away
          | yes same ↦ inl (λ q.
              ne (parent-place_injective x g hx h (tree.distinct (parent x) (parent g) nz q) same))
        ]) in
    let here' : name g f' ≡ r =
      name-parent g f' h
      ∙ ap (λ b. word_in b (place g) f')
          (parent_kept g f f' h inode
            (λ x hx px hg. keep f f' tree s.same_readable x hx px (cells x hx hg)))
      ∙ here in
    (
      r,
      f',
      e,
      record {
        step = rw here' s';
        same_count = ap (λ i. length i.i_zone) inode;
        same_size = ap (λ i. i.i_size) inode;
        others = others_kept f f' tree s.same_readable g r s' here' tops cells;
        words = λ x d nz i. elim (tree.used x) [
          | inl z ↦ absurd (nz z)
          | inr u ↦ others (name x f) i u (
              inl (λ q.
                let same = tree.distinct x (parent g) nz q in
                let n = parent-not_data g h in
                let d' = ap is_data (sym same) ∙ d in absurd (cc (d', n))))
        ];
      },
      here',
    )
  where
    parent_kept :
        (g : Node) (f f' : File)
        → has_parent g ≡ true
        → f'.inode ≡ f.inode
        → ((x : Node)
            → has_parent x ≡ true
            → name (parent x) f' ≡ name (parent x) f
            → x ≢ g
            → name x f' ≡ name x f)
        → name (parent g) f' ≡ name (parent g) f
    parent_kept (top k) f f' h inode k' = absurd (cc h)
    parent_kept (word1 i) f f' h inode k' = ap (λ i. get_or i.i_zone 7 0) inode
    parent_kept (word2 j) f f' h inode k' = ap (λ i. get_or i.i_zone 8 0) inode
    parent_kept (word3 j l) f f' h inode k' =
        k' (word2 j) refl (ap (λ i. get_or i.i_zone 8 0) inode) (λ q. absurd (cc q))
