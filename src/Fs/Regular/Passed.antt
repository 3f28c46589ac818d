-- ===== src/Fs/Regular/Passed.antt =====
-- One pass of the loop of file_write, behind create_block.
use linux_0_11_lab.Base.{
  Bool-cases, List, ap, arith, get_or, if◌then◌else◌, inl, inr, length, ltb, max, refl, some, sym,
  true, ℕ, ◌%◌, ◌+◌, ◌/◌, ◌<◌, ◌==◌, ◌∙◌, ◌≡◌, ◌≢◌, ◌≤◌, ◌⊎◌,
}
use native.Mathlib.Decide.{ℕ_discrete}
use linux_0_11_lab.Fs.Regular.{byte_at, put_bytes, with_size, with_volume}
use linux_0_11_lab.Fs.Regular.Bytes.{
  put_bytes-readable, put_bytes-sb, put_bytes-words, put_bytes_inside, put_bytes_outside,
}
use linux_0_11_lab.Fs.Regular.Content.{content}
use linux_0_11_lab.Fs.Regular.Created.{content_same}
use linux_0_11_lab.Fs.Regular.Placed.{Placed, Placed-IsTree, lookup-Placed}
use linux_0_11_lab.Fs.Regular.Reading.{content_there, in_block_of}
use linux_0_11_lab.Fs.Zones.{File, Volume}
use linux_0_11_lab.Fs.Zones.Lookup.{lookup}
use linux_0_11_lab.Fs.Zones.Tree.{
  IsTree, lookup-name, name, node_of, node_of-is_data, node_of_injective,
}

pub with_size_zones : (p : ℕ) (f : File) → (with_size p f).inode.i_zone ≡ f.inode.i_zone
with_size_zones p f = elim (Bool-cases (ltb f.inode.i_size p)) [
  | inl t ↦ rw t refl
  | inr t ↦ rw t refl
]

pub with_size_volume : (p : ℕ) (f : File) → (with_size p f).volume ≡ f.volume
with_size_volume p f = elim (Bool-cases (ltb f.inode.i_size p)) [
  | inl t ↦ rw t refl
  | inr t ↦ rw t refl
]

pub with_size_size : (p : ℕ) (f : File) → (with_size p f).inode.i_size ≡ max f.inode.i_size p
with_size_size p f = elim (Bool-cases (ltb f.inode.i_size p)) [
  | inl t ↦ rw t (ground (arith, t))
  | inr t ↦ rw t (ground (arith, t))
]

-- The file behind the bytes `xs` at position `p`, in block `b`.
abbrev pub passed : ℕ → ℕ → List ℕ → File → File
passed b p xs f =
    with_volume (put_bytes b (p % 1024) xs (with_size (p + length xs) f).volume)
      (with_size (p + length xs) f)

pub record Pass (p : ℕ) (xs : List ℕ) (f g : File) : Type 0 where
  pub tree : IsTree g
  pub same_readable : g.volume.readable ≡ f.volume.readable
  pub size : g.inode.i_size ≡ max f.inode.i_size (p + length xs)
  pub inside : (i : ℕ) → i < length xs → content (p + i) g ≡ some (get_or xs i 0 % 256)
  pub outside : (q : ℕ) → (q < p) ⊎ (p + length xs ≤ q) → content q g ≡ content q f

module _ (f : File) (tree : IsTree f) (p b : ℕ) (e : name (node_of (p / 1024)) f ≡ b) (nz : b ≢ 0)
    (good : f.volume.readable b ≡ true) (xs : List ℕ) (fits : p % 1024 + length xs ≤ 1024) where
  abbrev after : File
  after = passed b p xs f

  abbrev v : Volume
  v = (with_size (p + length xs) f).volume

  words_at : (b' k : ℕ) → byte_at b' k v ≡ byte_at b' k f.volume
  words_at b' k = ap (byte_at b' k) (with_size_volume (p + length xs) f)

  readable_same : after.volume.readable ≡ f.volume.readable
  readable_same =
      put_bytes-readable b (p % 1024) xs v
      ∙ ap (λ w. w.readable) (with_size_volume (p + length xs) f)

  placed : Placed (node_of (p / 1024)) f after
  placed = record {
    same_zones = with_size_zones (p + length xs) f;
    same_sb = put_bytes-sb b (p % 1024) xs v ∙ ap (λ w. w.sb) (with_size_volume (p + length xs) f);
    same_readable = readable_same;
    words = λ c i ne.
        put_bytes-words b (p % 1024) xs v c i (λ q. ne (q ∙ sym e))
        ∙ ap (λ w. w.words c i) (with_size_volume (p + length xs) f);
  }

  there : name (node_of (p / 1024)) f ≢ 0
  there z = nz (sym e ∙ z)

  same_lookup : (n : ℕ) → lookup n after ≡ lookup n f
  same_lookup n =
      lookup-Placed (node_of (p / 1024)) f after tree (node_of-is_data (p / 1024)) there placed n

  pass_inside : (i : ℕ) → i < length xs → content (p + i) after ≡ some (get_or xs i 0 % 256)
  pass_inside i l =
      let (same, offset) = in_block_of p i (omega arith) in
      let found : lookup ((p + i) / 1024) after ≡ b =
        same_lookup ((p + i) / 1024) ∙ ap (λ n. lookup n f) same ∙ lookup-name (p / 1024) f ∙ e in
      content_there (p + i) b after found nz (ap (λ r. r b) readable_same ∙ good)
      ∙ ap (λ k. some (byte_at b k after.volume)) offset
      ∙ ap some (put_bytes_inside b (p % 1024) xs v i l)

  pass_outside : (q : ℕ) → (q < p) ⊎ (p + length xs ≤ q) → content q after ≡ content q f
  pass_outside q out = content_same q f after readable_same (same_lookup (q / 1024)) (λ nz'. bytes)
    where
      bytes :
          byte_at (lookup (q / 1024) f) (q % 1024) after.volume
          ≡ byte_at (lookup (q / 1024) f) (q % 1024) f.volume
      bytes = elim (ℕ_discrete (lookup (q / 1024) f) b) [
        | no ne ↦
            ap (λ w. w / (if q % 1024 % 2 == 0 then 1 else 256) % 256)
              (placed.words (lookup (q / 1024) f) (q % 1024 / 2) (λ q'. ne (q' ∙ e)))
        | yes is ↦
            let same_node =
              tree.distinct (node_of (q / 1024)) (node_of (p / 1024))
                (λ z. nz (sym is ∙ lookup-name (q / 1024) f ∙ z))
                (sym (lookup-name (q / 1024) f) ∙ is ∙ sym e) in
            let m = node_of_injective (q / 1024) (p / 1024) same_node in
            let away : (q % 1024 < p % 1024) ⊎ (p % 1024 + length xs ≤ q % 1024) = elim out [
              | inl l ↦ inl (omega (arith, m, l))
              | inr l ↦ inr (omega (arith, m, l))
            ] in
            ap (λ c. byte_at c (q % 1024) after.volume) is
            ∙ put_bytes_outside b (p % 1024) xs v (q % 1024) away
            ∙ words_at b (q % 1024)
            ∙ sym (ap (λ c. byte_at c (q % 1024) f.volume) is)
      ]

  pub passed-Pass : Pass p xs f after
  passed-Pass = record {
    tree =
        Placed-IsTree (node_of (p / 1024)) f after tree (node_of-is_data (p / 1024)) there placed;
    same_readable = readable_same;
    size = with_size_size (p + length xs) f;
    inside = pass_inside;
    outside = pass_outside;
  }
