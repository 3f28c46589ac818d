-- ===== src/Fs/Regular/Wrote.antt =====
-- The bytes of a file behind the passes of the loop of file_write.
use linux_0_11_lab.Base.{
  Bool, Bool-cases, List, [], ap, arith, drop, false, get_or, if◌then◌else◌, inl, inr, length,
  length-append, max, none, refl, some, suc, sym, take, true, zero, ℕ, ◌%◌, ◌++◌, ◌+◌, ◌-◌, ◌/◌,
  ◌<◌, ◌==◌, ◌∙◌, ◌∷◌, ◌≡◌, ◌≤◌, ◌⊎◌,
}
use native.Mathlib.Decide.{dec_lt, ℕ_discrete}
use linux_0_11_lab.Fs.Regular.Content.{content}
use linux_0_11_lab.Fs.Regular.Created.{content-Extends}
use linux_0_11_lab.Fs.Regular.Passed.{Pass}
use linux_0_11_lab.Fs.Regular.Placed.{IsTree-alike, content-alike, name-alike}
use linux_0_11_lab.Fs.Regular.Reading.{content_bad}
use linux_0_11_lab.Fs.Zones.{File}
use linux_0_11_lab.Fs.Zones.Extends.{Extends}
use linux_0_11_lab.Fs.Zones.Tree.{IsTree, lookup-name, name, node_of}

-- The first `i` bytes of `cs` are at position `p`. All other bytes are as they were, but for those of
-- the block where the writing stopped, if that cannot be read.
pub record Wrote (cs : List ℕ) (p : ℕ) (f : File) (i : ℕ) (g : File) : Type 0 where
  pub tree : IsTree g
  pub bound : i ≤ length cs
  pub size : g.inode.i_size ≡ (if i == 0 then f.inode.i_size else max f.inode.i_size (p + i))
  pub inside : (j : ℕ) → j < i → content (p + j) g ≡ some (get_or cs j 0 % 256)
  pub outside :
      (q : ℕ)
      → (q < p) ⊎ (p + i ≤ q)
      → (content q g ≡ content q f)
        ⊎ ((content q g ≡ none) × (i < length cs) × (q / 1024 ≡ (p + i) / 1024))
  pub stopped : i < length cs → (name (node_of ((p + i) / 1024)) g ≡ 0) ⊎ (content (p + i) g ≡ none)

get_or-append_left :
    (xs ys : List ℕ) (j : ℕ) → j < length xs → get_or (xs ++ ys) j 0 ≡ get_or xs j 0
get_or-append_left [] ys j l = absurd (omega arith)
get_or-append_left (x ∷ xs) ys zero l = refl
get_or-append_left (x ∷ xs) ys (suc j) l = get_or-append_left xs ys j (omega arith)

get_or-append_right : (xs ys : List ℕ) (j : ℕ) → get_or (xs ++ ys) (length xs + j) 0 ≡ get_or ys j 0
get_or-append_right [] ys j = ap (λ i. get_or ys i 0) (omega arith)
get_or-append_right (x ∷ xs) ys j =
    let e : suc (length xs) + j ≡ suc (length xs + j) = omega arith in
    rw e (get_or-append_right xs ys j)

pub take-drop : (n : ℕ) (cs : List ℕ) → take n cs ++ drop n cs ≡ cs
take-drop zero cs = refl
take-drop (suc n) [] = refl
take-drop (suc n) (c ∷ cs) = ap (λ xs. c ∷ xs) (take-drop n cs)

-- A pass and what the rest of the loop wrote.
pub passes :
    (xs ys : List ℕ) (p n : ℕ) (f g h k : File) (i : ℕ)
    → p / 1024 ≡ n
    → 1 ≤ length xs
    → (length ys ≡ 0) ⊎ ((p + length xs) % 1024 ≡ 0)
    → Extends (node_of n) f g
    → g.volume.readable (name (node_of n) g) ≡ true
    → Pass p xs g h
    → Wrote ys (p + length xs) h i k
    → Wrote (xs ++ ys) p f (length xs + i) k
passes xs ys p n f g h k i en some_bytes aligned ext good pass rest =
    let total : length (xs ++ ys) ≡ length xs + length ys = length-append xs ys in
    let place : p + length xs + i ≡ p + (length xs + i) = omega arith in
    record {
      tree = rest.tree;
      bound = let b = rest.bound in omega (arith, total, b);
      size =
          let t : (length xs + i == 0) ≡ false = ground arith in
          rw t (elim (Bool-cases (i == 0)) [
            | inl u ↦
                let s = rw u at rest.size in
                let m = pass.size in let x = ext.same_size in ground (arith, u, s, m, x)
            | inr u ↦
                let s = rw u at rest.size in
                let m = pass.size in let x = ext.same_size in ground (arith, u, s, m, x)
          ]);
      inside = λ j l. elim (dec_lt j (length xs)) [
        | yes low ↦ elim (rest.outside (p + j) (inl (omega arith))) [
          | inl same ↦
              same
              ∙ pass.inside j low
              ∙ ap (λ c. some (c % 256)) (sym (get_or-append_left xs ys j low))
          | inr (_, more, m) ↦
              absurd
                (elim aligned [ inl z ↦ omega (arith, more, z) | inr z ↦ omega (arith, m, z, low) ])
        ]
        | no high ↦
            let d : length xs + (j - length xs) ≡ j = omega arith in
            ap (λ q. content q k) (omega arith)
            ∙ rest.inside (j - length xs) (omega arith)
            ∙ ap (λ c. some (c % 256)) (sym (get_or-append_right xs ys (j - length xs)))
            ∙ ap (λ m. some (get_or (xs ++ ys) m 0 % 256)) d
      ];
      outside = λ q out.
          let behind : (q < p + length xs) ⊎ (p + length xs + i ≤ q) = elim out [
            | inl l ↦ inl (omega arith)
            | inr l ↦ inr (omega arith)
          ] in
          let around : (q < p) ⊎ (p + length xs ≤ q) = elim out [
            | inl l ↦ inl l
            | inr l ↦ inr (omega arith)
          ] in
          elim (rest.outside q behind) [
            | inr (gone, more, m) ↦
                inr (gone, omega (arith, more, total), m ∙ ap (λ x. x / 1024) place)
            | inl same ↦ elim (content-Extends n f g ext q) [
              | inl kept ↦ inl (same ∙ pass.outside q around ∙ kept)
              | inr (_, _, bad) ↦ absurd (cc (bad, good))
            ]
          ];
      stopped = λ l. elim (rest.stopped (omega (arith, l, total))) [
        | inl z ↦ inl (rw place at z)
        | inr z ↦ inr (rw place at z)
      ];
    }

-- The loop that stops at the block of `p`.
pub stops :
    (c0 : ℕ) (cs : List ℕ) (p : ℕ) (f g : File)
    → Extends (node_of (p / 1024)) f g
    → (name (node_of (p / 1024)) g ≡ 0) ⊎ (g.volume.readable (name (node_of (p / 1024)) g) ≡ false)
    → Wrote (c0 ∷ cs) p f 0 g
stops c0 cs p f g ext why =
    let here : p + 0 ≡ p = omega arith in
    record {
      tree = ext.tree;
      bound = omega arith;
      size = ext.same_size;
      inside = λ j l. absurd (omega arith);
      outside = λ q out. elim (content-Extends (p / 1024) f g ext q) [
        | inl same ↦ inl same
        | inr (m, nz, bad) ↦ inr (
          content_bad q (name (node_of (p / 1024)) g) g
              (lookup-name (q / 1024) g ∙ ap (λ n. name (node_of n) g) m) nz bad,
          omega arith,
          m ∙ ap (λ x. x / 1024) (sym here),
        )
      ];
      stopped = λ l. rw here (elim (ℕ_discrete (name (node_of (p / 1024)) g) 0) [
        | yes z ↦ inl z
        | no nz ↦ elim why [
          | inl z ↦ inl z
          | inr bad ↦
              inr (content_bad p (name (node_of (p / 1024)) g) g (lookup-name (p / 1024) g) nz bad)
        ]
      ]);
    }

-- The times that file_write sets.
abbrev pub stamped : ℕ → Bool → File → File
stamped now append g =
    let h = record g { inode = record g.inode { i_mtime = now } } in
    if append then h else record h { inode = record h.inode { i_ctime = now } }

Wrote-alike :
    (cs : List ℕ) (p : ℕ) (f g h : File) (i : ℕ)
    → h.inode.i_zone ≡ g.inode.i_zone
    → h.volume ≡ g.volume
    → h.inode.i_size ≡ g.inode.i_size
    → Wrote cs p f i g
    → Wrote cs p f i h
Wrote-alike cs p f g h i zones volume size w = record {
  tree = IsTree-alike g h zones volume w.tree;
  bound = w.bound;
  size = size ∙ w.size;
  inside = λ j l. content-alike g h zones volume (p + j) ∙ w.inside j l;
  outside = λ q out. rw (content-alike g h zones volume q) (w.outside q out);
  stopped = λ l.
      rw
        (
          content-alike g h zones volume (p + i),
          name-alike g h zones volume (node_of ((p + i) / 1024)),
        )
        (w.stopped l);
}

pub Wrote-stamped :
    {cs : List ℕ} {p : ℕ} {f : File} (now : ℕ) (append : Bool) (g : File) (i : ℕ)
    → Wrote cs p f i g
    → Wrote cs p f i (stamped now append g)
Wrote-stamped {cs = cs} {p = p} {f = f} now true g i w =
    Wrote-alike cs p f g (stamped now true g) i refl refl refl w
Wrote-stamped {cs = cs} {p = p} {f = f} now false g i w =
    Wrote-alike cs p f g (stamped now false g) i refl refl refl w
