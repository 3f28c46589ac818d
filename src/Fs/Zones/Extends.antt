-- ===== src/Fs/Zones/Extends.antt =====
-- create_block on the tree of a file: it keeps the tree, and the blocks of all other numbers.
use linux_0_11_lab.Base.{
  Bool-cases, ap, arith, false, inl, inr, leb, ltb, refl, sym, true, ℕ, ◌%◌, ◌*◌, ◌+◌, ◌-◌, ◌/◌,
  ◌<◌, ◌∙◌, ◌≡◌, ◌≢◌, ◌≤◌,
}
use native.Mathlib.Decide.{ℕ_discrete}
use linux_0_11_lab.Fs.Bitmap.{ok}
use linux_0_11_lab.Fs.Zones.{File, _bmap, and_then, create_block, in_block}
use linux_0_11_lab.Fs.Zones.Grown.{Grown, word-Grown, zone-Grown}
use linux_0_11_lab.Fs.Zones.Kept.{Step-used}
use linux_0_11_lab.Fs.Zones.Tree.{
  IsTree, Node, Node-discrete, is_data, name, node_of, top, word1, word2, word3,
}

Grown-IsTree : (g : Node) (f f' : File) → IsTree f → Grown g f f' → IsTree f'
Grown-IsTree g f f' tree s = record {
  volume = s.step.sound;
  zones = s.same_count ∙ tree.zones;
  used = λ x. elim (Node-discrete x g) [
    | yes e ↦ rw e (Step-used (name g f) f (name g f') f' s.step (tree.used g))
    | no ne ↦
        rw (s.others x ne)
          (elim (tree.used x) [ inl z ↦ inl z | inr u ↦ inr (s.step.still_used _ u) ])
  ];
  distinct = λ x y nz e. elim (Node-discrete x g) [
    | yes xg ↦ elim (Node-discrete y g) [
      | yes yg ↦ xg ∙ sym yg
      | no yn ↦
          xg ∙ sym (meets y yn (rw xg at nz) (sym (s.others y yn) ∙ sym e ∙ ap (λ n. name n f') xg))
    ]
    | no xn ↦ elim (Node-discrete y g) [
      | yes yg ↦
          let nz' : name g f' ≢ 0 = λ z. nz (e ∙ ap (λ n. name n f') yg ∙ z) in
          meets x xn nz' (sym (s.others x xn) ∙ e ∙ ap (λ n. name n f') yg) ∙ sym yg
      | no yn ↦
          tree.distinct x y (λ z. nz (s.others x xn ∙ z)) (sym (s.others x xn) ∙ e ∙ s.others y yn)
    ]
  ];
}
  where
    -- No other node names the block of `g`.
    meets : (y : Node) → y ≢ g → name g f' ≢ 0 → name y f ≡ name g f' → y ≡ g
    meets y ne nz e = elim (ℕ_discrete (name g f) 0) [
      | no old ↦ tree.distinct y g (λ z. nz (sym e ∙ z)) (e ∙ (s.step.reuses old).0)
      | yes z ↦ elim (s.step.fresh z) [
        | inl gone ↦ absurd (nz gone)
        | inr (unused, _, _) ↦ elim (tree.used y) [
          | inl zero_there ↦ absurd (nz (sym e ∙ zero_there))
          | inr u ↦ let u' = rw e at u in absurd (cc (u', unused))
        ]
      ]
    ]

-- `f'` is `f` with what was needed for node `t` of the content.
pub record Extends (t : Node) (f f' : File) : Type 0 where
  pub tree : IsTree f'
  pub same_readable : f'.volume.readable ≡ f.volume.readable
  pub same_size : f'.inode.i_size ≡ f.inode.i_size
  pub others : (x : Node) → is_data x ≡ true → x ≢ t → name x f' ≡ name x f
  pub words :
      (x : Node)
      → is_data x ≡ true
      → name x f ≢ 0
      → (i : ℕ) → f'.volume.words (name x f) i ≡ f.volume.words (name x f) i
  pub reuses : name t f ≢ 0 → name t f' ≡ name t f
  pub cleared : name t f ≡ 0 → name t f' ≢ 0 → (i : ℕ) → f'.volume.words (name t f') i ≡ 0

-- A step for the node itself, and one on the way to it.
Grown-Extends : (t : Node) (f f' : File) → IsTree f → Grown t f f' → Extends t f f'
Grown-Extends t f f' tree s = record {
  tree = Grown-IsTree t f f' tree s;
  same_readable = s.step.same_readable;
  same_size = s.same_size;
  others = λ x d ne. s.others x ne;
  words = s.words;
  reuses = λ nz. (s.step.reuses nz).0;
  cleared = λ z nz. elim (s.step.fresh z) [ inl e ↦ absurd (nz e) | inr (_, _, c) ↦ c ];
}

Grown-Extends_below :
    (g t : Node) (f f' : File)
    → IsTree f
    → is_data g ≡ false
    → is_data t ≡ true
    → Grown g f f'
    → Extends t f f'
Grown-Extends_below g t f f' tree below data_t s =
    let away : (x : Node) → is_data x ≡ true → x ≢ g =
      λ x d e. let d' = ap is_data (sym e) ∙ d in cc (d', below) in
    record {
      tree = Grown-IsTree g f f' tree s;
      same_readable = s.step.same_readable;
      same_size = s.same_size;
      others = λ x d ne. s.others x (away x d);
      words = s.words;
      reuses = λ nz. s.others t (away t data_t);
      cleared = λ z nz. absurd (nz (s.others t (away t data_t) ∙ z));
    }

Extends-trans :
    (t : Node) (f f1 f2 : File)
    → is_data t ≡ true
    → Extends t f f1
    → Extends t f1 f2
    → Extends t f f2
Extends-trans t f f1 f2 data_t a b =
    let keep_words : (x : Node)
        → is_data x ≡ true
        → name x f ≢ 0
        → name x f1 ≡ name x f
        → (i : ℕ) → f2.volume.words (name x f) i ≡ f.volume.words (name x f) i =
      λ x d nz same i.
        sym (ap (λ c. f2.volume.words c i) same)
        ∙ b.words x d (λ z. nz (sym same ∙ z)) i
        ∙ ap (λ c. f1.volume.words c i) same
        ∙ a.words x d nz i in
    record {
      tree = b.tree;
      same_readable = b.same_readable ∙ a.same_readable;
      same_size = b.same_size ∙ a.same_size;
      others = λ x d ne. b.others x d ne ∙ a.others x d ne;
      words = λ x d nz. elim (Node-discrete x t) [
        | no ne ↦ keep_words x d nz (a.others x d ne)
        | yes e ↦ keep_words x d nz (
            ap (λ n. name n f1) e
            ∙ a.reuses (λ z. nz (ap (λ n. name n f) e ∙ z))
            ∙ sym (ap (λ n. name n f) e))
      ];
      reuses = λ nz. b.reuses (λ z. nz (sym (a.reuses nz) ∙ z)) ∙ a.reuses nz;
      cleared = λ z nz i. elim (ℕ_discrete (name t f1) 0) [
        | yes z1 ↦ b.cleared z1 nz i
        | no nz1 ↦
            let same = b.reuses nz1 in
            ap (λ c. f2.volume.words c i) same ∙ b.words t data_t nz1 i ∙ a.cleared z nz1 i
      ];
    }

abbrev Extended : ℕ → ℕ → Node → File → Type 0
Extended now n t f =
    (r : ℕ) × (f' : File) × (create_block now n f ≡ ok (r, f')) × Extends t f f' × (name t f' ≡ r)

direct : (now n : ℕ) (f : File) → IsTree f → n < 7 → Extended now n (top n) f
unfolding _bmap
direct now n f tree l =
    let t : leb (7 + 512 + 512 * 512) n ≡ false = ground arith in
    let u : ltb n 7 ≡ true = ground arith in
    let (r, f', e, s, here) = zone-Grown now n f tree (omega arith) in
    (r, f', rw (t, u) e, Grown-Extends (top n) f f' tree s, here)

single : (now n : ℕ) (f : File) → IsTree f → 7 ≤ n → n < 519 → Extended now n (word1 (n - 7)) f
unfolding _bmap and_then
single now n f tree low high =
    let t : leb (7 + 512 + 512 * 512) n ≡ false = ground arith in
    let u : ltb n 7 ≡ false = ground arith in
    let w : ltb (n - 7) 512 ≡ true = ground arith in
    let g : Node = word1 (n - 7) in
    let (z, f1, e1, s1, here1) = zone-Grown now 7 f tree (omega arith) in
    let x1 = Grown-Extends_below (top 7) g f f1 tree refl refl s1 in
    let (r, f2, e2, s2, here2) = word-Grown g f1 x1.tree refl in
    let e2' : in_block true z (n - 7) f1 ≡ ok (r, f2) =
      ap (λ b. in_block true b (n - 7) f1) (sym here1) ∙ e2 in
    (
      r,
      f2,
      rw (t, u, w, e1) e2',
      Extends-trans g f f1 f2 refl x1 (Grown-Extends g f1 f2 x1.tree s2),
      here2,
    )

double :
    (now n : ℕ) (f : File)
    → IsTree f
    → 519 ≤ n
    → n < 7 + 512 + 512 * 512
    → Extended now n (word3 ((n - 519) / 512) ((n - 519) % 512)) f
unfolding _bmap and_then
double now n f tree low high =
    let t : leb (7 + 512 + 512 * 512) n ≡ false = ground arith in
    let u : ltb n 7 ≡ false = ground arith in
    let w : ltb (n - 7) 512 ≡ false = ground arith in
    let j : ℕ = (n - 519) / 512 in
    let k : ℕ = (n - 519) % 512 in
    let g : Node = word3 j k in
    let (z, f1, e1, s1, here1) = zone-Grown now 8 f tree (omega arith) in
    let x1 = Grown-Extends_below (top 8) g f f1 tree refl refl s1 in
    let (i, f2, e2, s2, here2) = word-Grown (word2 j) f1 x1.tree refl in
    let x2 = Grown-Extends_below (word2 j) g f1 f2 x1.tree refl refl s2 in
    let (r, f3, e3, s3, here3) = word-Grown g f2 x2.tree refl in
    let e2' : in_block true z j f1 ≡ ok (i, f2) = ap (λ b. in_block true b j f1) (sym here1) ∙ e2 in
    let e3' : in_block true i k f2 ≡ ok (r, f3) = ap (λ b. in_block true b k f2) (sym here2) ∙ e3 in
    let x3 = Grown-Extends g f2 f3 x2.tree s3 in
    (
      r,
      f3,
      rw (t, u, w, e1, and_then, e2', and_then) e3',
      Extends-trans g f f2 f3 refl (Extends-trans g f f1 f2 refl x1 x2) x3,
      here3,
    )

-- create_block on a file whose blocks form a tree does not fail, and extends the tree.
pub create_block-Extends :
    (now n : ℕ) (f : File) → IsTree f → n < 7 + 512 + 512 * 512 → Extended now n (node_of n) f
create_block-Extends now n f tree l = elim (Bool-cases (ltb n 7)) [
  | inl t ↦ rw t (direct now n f tree (ground (arith, t)))
  | inr t ↦ elim (Bool-cases (ltb n 519)) [
    | inl u ↦ rw (t, u) (single now n f tree (ground (arith, t)) (ground (arith, u)))
    | inr u ↦ rw (t, u) (double now n f tree (ground (arith, u)) l)
  ]
]
