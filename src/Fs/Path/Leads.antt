-- ===== src/Fs/Path/Leads.antt =====
-- Where get_dir leads, and the counts that it leaves.
use linux_0_11_lab.Base.{
  Bool-cases, List, Option-cases, [], ap, arith, false, if◌then◌else◌, inl, inr, length, none, refl,
  some, some_injective, suc, sym, true, zero, ℕ, ◌+◌, ◌<◌, ◌==◌, ◌↔◌, ◌∙◌, ◌∷◌, ◌≡◌, ◌≢◌, ◌⊎◌,
}
use mathlib.Core.Path.{subst}
use native.Mathlib.Decide.{ℕ_discrete}
use linux_0_11_lab.Fs.Path.{
  Places, Walked, exchange, found_number, get_dir, is_lost, is_searchable, next_slash, ok, panic,
  put_count, searched, slash, take_count, walk, walk_from,
}

-- Path `path` leads from directory `s` to directory `t`; what is behind its last '/' does not matter.
pub data Leads (p : Places) : ℕ → List ℕ → ℕ → Type 0 where
  ends :
      {s : ℕ} {path : List ℕ} → is_searchable p s ≡ true → next_slash path ≡ none → Leads p s path s
  follows :
      {s t u : ℕ} {path name rest : List ℕ} {number : ℕ}
      → is_searchable p s ≡ true
      → next_slash path ≡ some (name, rest)
      → found_number p s (length name) path ≡ some number
      → p.iget (p.inode (searched p s (length name) path)).i_dev number ≡ some t
      → Leads p t rest u
      → Leads p s path u

-- What a walk may end in, if `base` are the counts without the directory that it is in.
pub record IsWalked (p : Places) (s : ℕ) (path : List ℕ) (base : ℕ → ℕ) (r : Walked) : Type 0 where
  pub leads : (t : ℕ) → r.0 ≡ some t → Leads p s path t
  pub reached : (t : ℕ) → Leads p s path t → r.0 ≡ some t
  pub held : (t : ℕ) → r.0 ≡ some t → (i : ℕ) → r.1 i ≡ take_count t base i
  pub released : r.0 ≡ none → (i : ℕ) → r.1 i ≡ base i

put-take :
    (s : ℕ) (base counts : ℕ → ℕ)
    → ((i : ℕ) → counts i ≡ take_count s base i)
    → (i : ℕ) → put_count s counts i ≡ base i
put-take s base counts h i = elim (Bool-cases (i == s)) [
  | inl t ↦ let e = rw t at (h i) in rw t (omega (arith, e))
  | inr t ↦ let e = rw t at (h i) in rw t e
]

take-same :
    (s : ℕ) (base counts : ℕ → ℕ)
    → ((i : ℕ) → counts i ≡ base i)
    → (i : ℕ) → take_count s counts i ≡ take_count s base i
take-same s base counts h i = elim (Bool-cases (i == s)) [
  | inl t ↦ rw t (ap (λ n. n + 1) (h i))
  | inr t ↦ rw t (h i)
]

exchanged_counts :
    (s t : ℕ) (base counts : ℕ → ℕ)
    → ((i : ℕ) → counts i ≡ take_count s base i)
    → (i : ℕ) → exchange s t counts i ≡ take_count t base i
exchanged_counts s t base counts h i = elim (ℕ_discrete s t) [
  | yes e ↦
      let b : (s == t) ≡ true = ground (arith, e) in rw b (h i ∙ ap (λ x. take_count x base i) e)
  | no ne ↦
      let b : (s == t) ≡ false = ground (arith, ne) in
      rw b (take-same t base (put_count s counts) (put-take s base counts h) i)
]

next_slash_shorter :
    (path name rest : List ℕ) → next_slash path ≡ some (name, rest) → length rest < length path
unfolding next_slash
next_slash_shorter [] name rest e = absurd (cc e)
next_slash_shorter (c ∷ cs) name rest e = elim (Bool-cases (c == slash)) [
  | inl t ↦
      let e' = some_injective (rw t at e) in
      let n : length cs ≡ length rest = ap (λ r. length r.1) e' in omega (arith, n)
  | inr t ↦ elim (Option-cases (next_slash cs)) [
    | inl u ↦ let e' = rw (t, u) at e in absurd (cc e')
    | inr (r, u) ↦
        let e' = some_injective (rw (t, u) at e) in
        let l = next_slash_shorter cs r.0 r.1 u in
        let n : length r.1 ≡ length rest = ap (λ q. length q.1) e' in omega (arith, l, n)
  ]
]

-- A walk that comes to nothing.
lost :
    (p : Places) (s : ℕ) (path : List ℕ) (base counts : ℕ → ℕ)
    → ((t : ℕ) → ¬ Leads p s path t)
    → ((i : ℕ) → counts i ≡ base i)
    → IsWalked p s path base (none, counts)
lost p s path base counts nowhere h = record {
  leads = λ t e. absurd (cc e);
  reached = λ t l. absurd (nowhere t l);
  held = λ t e. absurd (cc e);
  released = λ e. h;
}

Leads-searchable :
    (p : Places) (s : ℕ) (path : List ℕ) (t : ℕ) → Leads p s path t → is_searchable p s ≡ true
Leads-searchable p s path t (ends a e) = a
Leads-searchable p s path t (follows a e f g l) = a

Leads-ends :
    (p : Places) (s : ℕ) (path : List ℕ) (t : ℕ) → Leads p s path t → next_slash path ≡ none → s ≡ t
Leads-ends p s path t (ends a e) z = refl
Leads-ends p s path t (follows a e f g l) z = absurd (cc (e, z))

Leads-follows :
    (p : Places) (s : ℕ) (path : List ℕ) (u : ℕ) (r : List ℕ × List ℕ)
    → Leads p s path u
    → next_slash path ≡ some r
    → (number : ℕ) × (t : ℕ) × (found_number p s (length r.0) path ≡ some number)
      × (p.iget (p.inode (searched p s (length r.0) path)).i_dev number ≡ some t)
      × Leads p t r.1 u
Leads-follows p s path u r (ends a e) z = absurd (cc (e, z))
Leads-follows p s path u r (follows {t = t} {number = number} a e f g l) z =
    let same = some_injective (sym e ∙ z) in
    (
      number,
      t,
      subst (λ q. found_number p s (length q.0) path ≡ some number) same f,
      subst (λ q. p.iget (p.inode (searched p s (length q.0) path)).i_dev number ≡ some t) same g,
      subst (λ q. Leads p t q.1 u) same l,
    )

arrived :
    (p : Places) (s : ℕ) (path : List ℕ) (base counts : ℕ → ℕ)
    → is_searchable p s ≡ true
    → next_slash path ≡ none
    → ((i : ℕ) → counts i ≡ take_count s base i)
    → IsWalked p s path base (some s, counts)
arrived p s path base counts may e h = record {
  leads = λ t q. subst (λ x. Leads p s path x) (some_injective q) (ends may e);
  reached = λ t l. ap some (Leads-ends p s path t l e);
  held = λ t q i. h i ∙ ap (λ x. take_count x base i) (some_injective q);
  released = λ q. absurd (cc q);
}

went_on :
    (p : Places) (s t : ℕ) (path : List ℕ) (r : List ℕ × List ℕ) (number : ℕ) (base : ℕ → ℕ)
    (w : Walked)
    → is_searchable p s ≡ true
    → next_slash path ≡ some r
    → found_number p s (length r.0) path ≡ some number
    → p.iget (p.inode (searched p s (length r.0) path)).i_dev number ≡ some t
    → IsWalked p t r.1 base w
    → IsWalked p s path base w
went_on p s t path r number base w may e f g rest = record {
  leads = λ u q. follows may e f g (rest.leads u q);
  reached = λ u l.
      let (number', t', f', g', l') = Leads-follows p s path u r l e in
      let same : number ≡ number' = some_injective (sym f ∙ f') in
      let there : t' ≡ t =
        some_injective
          (sym g' ∙ ap (p.iget (p.inode (searched p s (length r.0) path)).i_dev) (sym same) ∙ g) in
      rest.reached u (subst (λ x. Leads p x r.1 u) there l');
  held = rest.held;
  released = rest.released;
}

walk_lem :
    (fuel : ℕ) (p : Places) (path : List ℕ) (s : ℕ) (base counts : ℕ → ℕ)
    → length path < fuel
    → ((i : ℕ) → counts i ≡ take_count s base i)
    → IsWalked p s path base (walk fuel p path s counts)
unfolding walk
walk_lem zero p path s base counts l h = absurd (omega arith)
walk_lem (suc fuel) p path s base counts l h = elim (Bool-cases (is_searchable p s)) [
  | inr shut ↦ rw shut (
      lost p s path base (put_count s counts)
        (λ t to. let may = Leads-searchable p s path t to in cc (may, shut))
        (put-take s base counts h))
  | inl may ↦ elim (Option-cases (next_slash path)) [
    | inl e ↦ rw (may, e) (arrived p s path base counts may e h)
    | inr (r, e) ↦
        let t : ℕ = searched p s (length r.0) path in
        let moved = exchanged_counts s t base counts h in
        let back = put-take t base (exchange s t counts) moved in
        elim (Option-cases (found_number p s (length r.0) path)) [
          | inl f ↦
              rw (may, e, f)
                (lost p s path base (put_count t (exchange s t counts))
                  (λ u to. let x = (Leads-follows p s path u r to e).2 in cc (x, f)) back)
          | inr (number, f) ↦ elim (Option-cases (p.iget (p.inode t).i_dev number)) [
            | inl g ↦
                rw (may, e, f, g)
                  (lost p s path base (put_count t (exchange s t counts))
                    (λ u to.
                      let (number', t', f', g', _) = Leads-follows p s path u r to e in
                      let same : number ≡ number' = some_injective (sym f ∙ f') in
                      let g'' = ap (p.iget (p.inode t).i_dev) same ∙ g' in cc (g, g''))
                    back)
            | inr (u, g) ↦
                let shorter = next_slash_shorter path r.0 r.1 e in
                let rest =
                  walk_lem fuel p r.1 u base (take_count u (put_count t (exchange s t counts)))
                    (omega (arith, shorter, l))
                    (take-same u base (put_count t (exchange s t counts)) back) in
                rw (may, e, f, g) (went_on p s u path r number base _ may e f g rest)
          ]
        ]
  ]
]

-- Where a path leads from: the root for one that begins with '/', and the working directory.
abbrev pub Reaches : Places → List ℕ → ℕ → Type 0
Reaches p [] t = ⊥
Reaches p (c ∷ cs) t = if c == slash then Leads p p.root cs t else Leads p p.pwd (c ∷ cs) t

walk_from_lem :
    (p : Places) (path : List ℕ) (counts : ℕ → ℕ)
    → ((t : ℕ) → ((walk_from p path counts).0 ≡ some t) ↔ Reaches p path t)
      × ((t : ℕ)
          → (walk_from p path counts).0 ≡ some t
          → (i : ℕ) → (walk_from p path counts).1 i ≡ take_count t counts i)
      × ((walk_from p path counts).0 ≡ none → (i : ℕ) → (walk_from p path counts).1 i ≡ counts i)
unfolding walk_from
walk_from_lem p [] counts =
    (λ t. (λ e. absurd (cc e), λ l. absurd l), λ t e. absurd (cc e), λ e i. refl)
walk_from_lem p (c ∷ cs) counts = elim (Bool-cases (c == slash)) [
  | inl t ↦
      let w =
        walk_lem (length cs + 1) p cs p.root counts (take_count p.root counts) (omega arith)
          (λ i. refl) in
      rw t (λ u. (w.leads u, w.reached u), w.held, w.released)
  | inr t ↦
      let w =
        walk_lem (length (c ∷ cs) + 1) p (c ∷ cs) p.pwd counts (take_count p.pwd counts)
          (omega arith) (λ i. refl) in
      rw t (λ u. (w.leads u, w.reached u), w.held, w.released)
]

-- What get_dir answers: a panic where the root or the working directory is missing or has no user.
-- Otherwise it ends; it gives the directory that the path leads to, by directories that the task may
-- search and entries that are there, and nothing if there is none. In the first case that directory
-- has one user more than before and no other inode has; in the second no count has changed, wherever
-- the walk stopped.
pub get_dir_lem :
    (p : Places) (path : List ℕ) (counts : ℕ → ℕ)
    → (((p.has_root ≡ false) ⊎ (counts p.root ≡ 0) ⊎ (p.has_pwd ≡ false) ⊎ (counts p.pwd ≡ 0))
        × (get_dir p path counts ≡ panic))
      ⊎ ((p.has_root ≡ true)
          × (counts p.root ≢ 0)
          × (p.has_pwd ≡ true)
          × (counts p.pwd ≢ 0)
          × ((w : Walked) × (get_dir p path counts ≡ ok w)
              × ((t : ℕ) → (w.0 ≡ some t) ↔ Reaches p path t)
              × ((t : ℕ) → w.0 ≡ some t → (i : ℕ) → w.1 i ≡ take_count t counts i)
              × (w.0 ≡ none → (i : ℕ) → w.1 i ≡ counts i)))
unfolding get_dir
get_dir_lem p path counts = elim (Bool-cases (is_lost p counts)) [
  | inl t ↦ inl (ground (arith, t), rw t refl)
  | inr t ↦
      let w = walk_from_lem p path counts in
      inr (
        ground (arith, t),
        ground (arith, t),
        ground (arith, t),
        ground (arith, t),
        (walk_from p path counts, rw t refl, w.0, w.1, w.2),
      )
]
