-- ===== src/Fs/Zones/Tree.antt =====
-- The blocks of a file as a tree: the zones of the inode, and the words of the blocks of numbers.
use linux_0_11_lab.Base.{
  Bool, Bool-cases, ap, arith, false, if◌then◌else◌, inl, inr, length, ltb, refl, sym, true, ℕ, ◌%◌,
  ◌*◌, ◌+◌, ◌-◌, ◌/◌, ◌∙◌, ◌≡◌, ◌≢◌, ◌⊎◌,
}
use native.Mathlib.Decide.{ℕ_discrete}
use linux_0_11_lab.Fs.Zones.{File, zone}
use linux_0_11_lab.Fs.Zones.Allocate.{IsVolume, in_use}
use linux_0_11_lab.Fs.Zones.Lookup.{lookup, word_in}

-- A zone; a word of the block of zone 7, or of zone 8; a word of a block that zone 8's names.
pub data Node : Type 0 where
  top : ℕ → Node
  word1 : ℕ → Node
  word2 : ℕ → Node
  word3 : ℕ → ℕ → Node

pub Node-discrete : Discrete Node
Node-discrete = hlevel (ℕ_discrete)

-- The block that a node names, 0 for none.
abbrev pub name : Node → File → ℕ
name (top k) f = zone k f
name (word1 i) f = word_in (zone 7 f) i f
name (word2 j) f = word_in (zone 8 f) j f
name (word3 j l) f = word_in (word_in (zone 8 f) j f) l f

-- Whether the block is one of the file's content.
abbrev pub is_data : Node → Bool
is_data (top k) = ltb k 7
is_data (word1 i) = true
is_data (word2 j) = false
is_data (word3 j l) = true

abbrev pub node_of : ℕ → Node
node_of n =
    if ltb n 7
    then top n
    else if ltb n 519
    then word1 (n - 7)
    else word3 ((n - 519) / 512) ((n - 519) % 512)

-- All blocks of the file are in use, and no two nodes name the same block. Words past the end of a
-- block count as 0.
pub record IsTree (f : File) : Type 0 where
  pub volume : IsVolume f.volume
  pub zones : length f.inode.i_zone ≡ 9
  pub used : (x : Node) → (name x f ≡ 0) ⊎ (in_use f.volume.sb (name x f) ≡ true)
  pub distinct : (x y : Node) → name x f ≢ 0 → name x f ≡ name y f → x ≡ y

pub lookup-name : (n : ℕ) (f : File) → lookup n f ≡ name (node_of n) f
unfolding lookup
lookup-name n f = elim (Bool-cases (ltb n 7)) [
  | inl t ↦ rw t refl
  | inr t ↦ elim (Bool-cases (ltb n 519)) [ inl u ↦ rw (t, u) refl | inr u ↦ rw (t, u) refl ]
]

pub node_of-is_data : (n : ℕ) → is_data (node_of n) ≡ true
node_of-is_data n = elim (Bool-cases (ltb n 7)) [
  | inl t ↦ rw t t
  | inr t ↦ elim (Bool-cases (ltb n 519)) [ inl u ↦ rw (t, u) refl | inr u ↦ rw (t, u) refl ]
]

-- The number of the block that a node of the content stands for.
abbrev number_of : Node → ℕ
number_of (top k) = k
number_of (word1 i) = i + 7
number_of (word2 j) = 0
number_of (word3 j l) = j * 512 + l + 519

number_of-node_of : (n : ℕ) → number_of (node_of n) ≡ n
number_of-node_of n = elim (Bool-cases (ltb n 7)) [
  | inl t ↦ rw t refl
  | inr t ↦ elim (Bool-cases (ltb n 519)) [
    | inl u ↦ rw (t, u) (ground (arith, t))
    | inr u ↦ rw (t, u) (ground (arith, u))
  ]
]

pub node_of_injective : (m n : ℕ) → node_of m ≡ node_of n → m ≡ n
node_of_injective m n e = sym (number_of-node_of m) ∙ ap number_of e ∙ number_of-node_of n

-- A node that is a word of the block of another.
abbrev pub has_parent : Node → Bool
has_parent (top k) = false
has_parent (word1 i) = true
has_parent (word2 j) = true
has_parent (word3 j l) = true

abbrev pub parent : Node → Node
parent (top k) = top k
parent (word1 i) = top 7
parent (word2 j) = top 8
parent (word3 j l) = word2 j

abbrev pub place : Node → ℕ
place (top k) = 0
place (word1 i) = i
place (word2 j) = j
place (word3 j l) = l

pub name-parent :
    (x : Node) (f : File) → has_parent x ≡ true → name x f ≡ word_in (name (parent x) f) (place x) f
name-parent (top k) f h = absurd (cc h)
name-parent (word1 i) f h = refl
name-parent (word2 j) f h = refl
name-parent (word3 j l) f h = refl

pub parent-place_injective :
    (x y : Node)
    → has_parent x ≡ true
    → has_parent y ≡ true
    → parent x ≡ parent y
    → place x ≡ place y
    → x ≡ y
parent-place_injective (top k) y h g e q = absurd (cc h)
parent-place_injective (word1 i) (top k) h g e q = absurd (cc g)
parent-place_injective (word1 i) (word1 j) h g e q = ap word1 q
parent-place_injective (word1 i) (word2 j) h g e q = absurd (ground (arith, e))
parent-place_injective (word1 i) (word3 j l) h g e q = absurd (cc e)
parent-place_injective (word2 i) (top k) h g e q = absurd (cc g)
parent-place_injective (word2 i) (word1 j) h g e q = absurd (ground (arith, e))
parent-place_injective (word2 i) (word2 j) h g e q = ap word2 q
parent-place_injective (word2 i) (word3 j l) h g e q = absurd (cc e)
parent-place_injective (word3 i k) (top j) h g e q = absurd (cc g)
parent-place_injective (word3 i k) (word1 j) h g e q = absurd (cc e)
parent-place_injective (word3 i k) (word2 j) h g e q = absurd (cc e)
parent-place_injective (word3 i k) (word3 j l) h g e q = cc

pub parent-not_data : (x : Node) → has_parent x ≡ true → is_data (parent x) ≡ false
parent-not_data (top k) h = absurd (cc h)
parent-not_data (word1 i) h = refl
parent-not_data (word2 j) h = refl
parent-not_data (word3 j l) h = refl
