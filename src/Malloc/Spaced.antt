-- ===== src/Malloc/Spaced.antt =====
-- Where the objects of the allocator lie in their pages.
use linux_0_11_lab.Base.{
  Bool-cases, List, Option-cases, [], ap, arith, get_or, inl, inr, refl, some, some_injective, suc,
  sym, zero, ℕ, ◌%◌, ◌*◌, ◌+◌, ◌-◌, ◌<◌, ◌==◌, ◌∙◌, ◌∷◌, ◌≡◌, ◌≢◌, ◌≤◌, ◌⊎◌,
}
use mathlib.Core.Path.{subst}
use native.Mathlib.Decide.{dec_lt, ℕ_discrete}
use linux_0_11_lab.Malloc.{
  Bucket, Heap, behind_first, dir_at, freeptr, objects, page_of, take_object, use_object,
}
use linux_0_11_lab.Malloc.Heaps.{IsSize, objects_in}
use linux_0_11_lab.Malloc.Pages.{fresh}

-- The address of one of the objects of a size that fill a page from its beginning.
abbrev pub AtPlace : ℕ → ℕ → Type 0
AtPlace size a = (k : ℕ) × (a ≡ page_of a + k * size) × (k * size + size ≤ 4096)

abbrev pub AllAt : ℕ → List ℕ → Type 0
AllAt size [] = Unit
AllAt size (a ∷ free) = AtPlace size a × AllAt size free

abbrev pub IsSpacedChain : ℕ → List Bucket → Type 0
IsSpacedChain size [] = Unit
IsSpacedChain size (b ∷ chain) = AllAt size b.free × IsSpacedChain size chain

-- All free objects are at places of the size of their chain.
abbrev pub IsSpaced : Heap → Type 0
IsSpaced h = (i : ℕ) → IsSpacedChain (dir_at h i).size (dir_at h i).chain

pub AllAt-first :
    (size : ℕ) (free : List ℕ)
    → AllAt size free
    → get_or free 0 0 ≢ 0
    → AtPlace size (get_or free 0 0) × AllAt size (behind_first free)
unfolding behind_first
AllAt-first size [] all nz = absurd (nz refl)
AllAt-first size (a ∷ free) all nz = (all.0, all.1)

pub take_object-IsSpaced :
    (size : ℕ) (chain : List Bucket)
    → IsSpacedChain size chain
    → (a : ℕ) (chain' : List Bucket) → take_object chain ≡ some (a, chain')
    → AtPlace size a × IsSpacedChain size chain'
unfolding take_object
take_object-IsSpaced size [] all a chain' e = absurd (cc e)
take_object-IsSpaced size (b ∷ chain) (here, all) a chain' e = elim (Bool-cases (freeptr b == 0)) [
  | inr t ↦
      let q : some (freeptr b, use_object b ∷ chain) ≡ some (a, chain') = rw t at e in
      let first = AllAt-first size b.free here (ground (arith, t)) in
      subst (λ (x : ℕ × List Bucket). AtPlace size x.0 × IsSpacedChain size x.1) (some_injective q)
        (first.0, (first.1, all))
  | inl t ↦ elim (Option-cases (take_object chain)) [
    | inl n ↦ let z = rw (t, n) at e in absurd (cc z)
    | inr ((c, rest), s) ↦
        let q : some (c, b ∷ rest) ≡ some (a, chain') = rw (t, s) at e in
        let ih = take_object-IsSpaced size chain all c rest s in
        subst (λ (x : ℕ × List Bucket). AtPlace size x.0 × IsSpacedChain size x.1)
          (some_injective q) (ih.0, (here, ih.1))
  ]
]

pub objects-AllAt :
    (n size page k : ℕ)
    → 1 ≤ size
    → page % 4096 ≡ 0
    → k * size + n * size ≤ 4096
    → AllAt size (objects n size (page + k * size))
unfolding objects
objects-AllAt zero size page k l whole fits = tt
objects-AllAt (suc n) size page k l whole fits =
    let m : suc n * size ≡ size + n * size = omega arith in
    let next : (k + 1) * size ≡ k * size + size = omega arith in
    let rest = objects-AllAt n size page (k + 1) l whole (omega (arith, m, next, fits)) in
    let on_page : page_of (page + k * size) ≡ page =
      offset_page page (k * size) whole (omega (arith, m, fits, l)) in
    let far : page + (k + 1) * size ≡ page + k * size + size = omega (arith, next) in
    (
      (k, ap (λ p. p + k * size) (sym on_page), omega (arith, m, fits)),
      subst (λ c. AllAt size (objects n size c)) far rest,
    )
  where
    offset_page : (page x : ℕ) → page % 4096 ≡ 0 → x < 4096 → page_of (page + x) ≡ page
    offset_page page x w l = omega arith

multiples : (k d size : ℕ) → k * size + size ≤ (k + 1 + d) * size
multiples k d size =
    let e : (k + 1 + d) * size ≡ k * size + size + d * size = omega arith in omega (arith, e)

-- Objects of one size do not overlap.
below :
    (size a c k j : ℕ)
    → a ≡ page_of a + k * size
    → c ≡ page_of c + j * size
    → page_of a ≡ page_of c
    → k < j
    → a + size ≤ c
below size a c k j e f same l =
    let m = multiples k (j - k - 1) size in
    let n : k + 1 + (j - k - 1) ≡ j = omega arith in
    let m' : k * size + size ≤ j * size = rw n at m in omega (arith, e, f, same, m')

pub disjoint :
    (size a c : ℕ) → AtPlace size a → AtPlace size c → c ≢ a → (c + size ≤ a) ⊎ (a + size ≤ c)
disjoint size a c (k, e, l) (j, f, m) ne = elim (ℕ_discrete (page_of a) (page_of c)) [
  | yes same ↦ elim (dec_lt k j) [
    | yes up ↦ inr (below size a c k j e f same up)
    | no no_up ↦ elim (dec_lt j k) [
      | yes down ↦ inl (below size c a j k f e (sym same) down)
      | no no_down ↦
          let one : k ≡ j = omega (arith, no_up, no_down) in
          absurd (
            ne (
              f
              ∙ ap (λ p. p + j * size) (sym same)
              ∙ ap (λ i. page_of a + i * size) (sym one)
              ∙ sym e))
    ]
  ]
  | no apart ↦ elim (dec_lt (page_of a) (page_of c)) [
    | yes up ↦ inr (pages_apart a c size (k * size) e l up)
    | no no_up ↦ inl (pages_apart c a size (j * size) f m (omega (arith, no_up, apart)))
  ]
]
  where
    pages_apart :
        (a c size x : ℕ)
        → a ≡ page_of a + x
        → x + size ≤ 4096
        → page_of a < page_of c
        → a + size ≤ c
    pages_apart a c size x e l up = omega (arith, e, l, up)

pub fresh-AllAt :
    (size page : ℕ) → IsSize size → page % 4096 ≡ 0 → AllAt size (fresh size page).free
fresh-AllAt size page valid whole =
    let f = valid.fit in
    let p = valid.positive in
    let at : page + 0 * size ≡ page = omega arith in
    subst (λ c. AllAt size (objects (objects_in size) size c)) at
      (objects-AllAt (objects_in size) size page 0 p whole (omega (arith, f)))
