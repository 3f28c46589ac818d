-- ===== src/Fs/Regular/Placed.antt =====
-- A block of the content with other words.
use linux_0_11_lab.Base.{
  ap, get_or, if◌then◌else◌, none, not, refl, some, sym, true, ℕ, ◌%◌, ◌/◌, ◌==◌, ◌||◌, ◌∙◌, ◌≡◌,
  ◌≢◌,
}
use native.Mathlib.Decide.{ℕ_discrete}
use linux_0_11_lab.Fs.Regular.{byte_at}
use linux_0_11_lab.Fs.Regular.Content.{content}
use linux_0_11_lab.Fs.Zones.{File, zone}
use linux_0_11_lab.Fs.Zones.Lookup.{lookup, word_in}
use linux_0_11_lab.Fs.Zones.Tree.{
  IsTree, Node, has_parent, is_data, lookup-name, name, name-parent, node_of, parent,
  parent-not_data, place, top, word1, word2, word3,
}

-- `f'` is `f` with other words in the block of `t`.
pub record Placed (t : Node) (f f' : File) : Type 0 where
  pub same_zones : f'.inode.i_zone ≡ f.inode.i_zone
  pub same_sb : f'.volume.sb ≡ f.volume.sb
  pub same_readable : f'.volume.readable ≡ f.volume.readable
  pub words : (b i : ℕ) → b ≢ name t f → f'.volume.words b i ≡ f.volume.words b i

module _ (t : Node) (f f' : File) (tree : IsTree f) (data_t : is_data t ≡ true)
    (there : name t f ≢ 0) (s : Placed t f f') where
  word_same :
      (x : Node)
      → has_parent x ≡ true
      → (i : ℕ) → word_in (name (parent x) f) i f' ≡ word_in (name (parent x) f) i f
  word_same x h i = elim (ℕ_discrete (name (parent x) f) 0) [
    | yes z ↦ rw z refl
    | no nz ↦
        let apart : name (parent x) f ≢ name t f = λ e.
          let same = tree.distinct (parent x) t nz e in
          let d = ap is_data same ∙ data_t in let n = parent-not_data x h in cc (d, n) in
        rw (s.same_readable, s.words (name (parent x) f) i apart) refl
  ]

  zone_same : (k : ℕ) → zone k f' ≡ zone k f
  zone_same k = ap (λ zs. get_or zs k 0) s.same_zones

  child_same :
      (x : Node)
      → has_parent x ≡ true
      → name (parent x) f' ≡ name (parent x) f
      → name x f' ≡ name x f
  child_same x h e =
      name-parent x f' h
      ∙ ap (λ b. word_in b (place x) f') e
      ∙ word_same x h (place x)
      ∙ sym (name-parent x f h)

  pub name-Placed : (x : Node) → name x f' ≡ name x f
  name-Placed (top k) = zone_same k
  name-Placed (word1 i) = child_same (word1 i) refl (zone_same 7)
  name-Placed (word2 j) = child_same (word2 j) refl (zone_same 8)
  name-Placed (word3 j l) = child_same (word3 j l) refl (child_same (word2 j) refl (zone_same 8))

  pub Placed-IsTree : IsTree f'
  Placed-IsTree = record {
    volume = record {
      whole = rw s.same_sb tree.volume.whole;
      first = rw s.same_sb tree.volume.first;
      bit_0 = rw s.same_sb tree.volume.bit_0;
      short = rw s.same_sb tree.volume.short;
    };
    zones = rw s.same_zones tree.zones;
    used = λ x. rw (name-Placed x, s.same_sb) (tree.used x);
    distinct = λ x y nz e.
        tree.distinct x y (λ z. nz (name-Placed x ∙ z)) (sym (name-Placed x) ∙ e ∙ name-Placed y);
  }

  pub lookup-Placed : (n : ℕ) → lookup n f' ≡ lookup n f
  lookup-Placed n = lookup-name n f' ∙ name-Placed (node_of n) ∙ sym (lookup-name n f)

-- A file with the same zones on the same volume.
module _ (f g : File) (zones : g.inode.i_zone ≡ f.inode.i_zone) (volume : g.volume ≡ f.volume) where
  zone_alike : (k : ℕ) → zone k g ≡ zone k f
  zone_alike k = ap (λ zs. get_or zs k 0) zones

  word_alike : {b c : ℕ} (j : ℕ) → b ≡ c → word_in b j g ≡ word_in c j f
  word_alike {c = c} j e =
      ap (λ b. word_in b j g) e
      ∙ ap (λ v. if c == 0 || not (v.readable c) then 0 else v.words c j) volume

  pub name-alike : (x : Node) → name x g ≡ name x f
  name-alike (top k) = zone_alike k
  name-alike (word1 i) = word_alike i (zone_alike 7)
  name-alike (word2 j) = word_alike j (zone_alike 8)
  name-alike (word3 j l) = word_alike l (word_alike j (zone_alike 8))

  pub IsTree-alike : IsTree f → IsTree g
  IsTree-alike tree = record {
    volume = rw volume tree.volume;
    zones = rw zones tree.zones;
    used = λ x. rw (name-alike x, volume) (tree.used x);
    distinct = λ x y nz e.
        tree.distinct x y (λ z. nz (name-alike x ∙ z)) (sym (name-alike x) ∙ e ∙ name-alike y);
  }

  pub content-alike : (q : ℕ) → content q g ≡ content q f
  unfolding content
  content-alike q =
      let e =
        lookup-name (q / 1024) g
        ∙ name-alike (node_of (q / 1024))
        ∙ sym (lookup-name (q / 1024) f) in
      ap
        (λ b.
          if b == 0
          then some 0
          else if g.volume.readable b
          then some (byte_at b (q % 1024) g.volume)
          else none)
        e
      ∙ ap
          (λ v.
            if lookup (q / 1024) f == 0
            then some 0
            else if v.readable (lookup (q / 1024) f)
            then some (byte_at (lookup (q / 1024) f) (q % 1024) v)
            else none)
          volume
