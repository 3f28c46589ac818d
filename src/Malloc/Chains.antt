-- ===== src/Malloc/Chains.antt =====
-- The chains of the allocator: what it takes from a chain, give_back returns.
use linux_0_11_lab.Base.{
  Bool-cases, In, IsNodup, List, [], arith, false, get_or, inl, inr, leb, length, ltb, none, not,
  refl, some, suc, sym, true, zero, ℕ, ◌%◌, ◌&&◌, ◌+◌, ◌<◌, ◌==◌, ◌^◌, ◌∙◌, ◌∷◌, ◌≡◌, ◌≢◌, ◌≤◌, ◌⊎◌,
}
use linux_0_11_lab.Malloc.{
  Bucket, BucketDir, behind_first, dir_for, dir_with, empty_dir, freeptr, give_back, has_page,
  page_of, take_object, use_object,
}

-- The free objects of a bucket lie in its page.
abbrev pub AllIn : ℕ → List ℕ → Type 0
AllIn page [] = Unit
AllIn page (a ∷ free) = (page_of a ≡ page) × (a ≢ 0) × AllIn page free

-- A bucket of `n` objects.
pub record IsBucket (n : ℕ) (b : Bucket) : Type 0 where
  pub inside : AllIn b.page b.free
  pub distinct : IsNodup b.free
  pub in_use : b.refcnt ≢ 0
  pub counted : b.refcnt + length b.free ≡ n

-- Sound buckets, each with a page of its own.
abbrev pub IsChain : ℕ → List Bucket → Type 0
IsChain n [] = Unit
IsChain n (b ∷ chain) = IsBucket n b × (has_page b.page chain ≡ false) × IsChain n chain

-- The address is in the page of a bucket, and is not a free object.
abbrev pub Held : ℕ → List Bucket → Type 0
Held a [] = ⊥
Held a (b ∷ chain) = ((b.page ≡ page_of a) × (In a b.free → ⊥)) ⊎ Held a chain

pub Held-has_page : (a : ℕ) (chain : List Bucket) → Held a chain → has_page (page_of a) chain ≡ true
unfolding has_page
Held-has_page a [] h = absurd h
Held-has_page a (b ∷ chain) (inl (e, _)) =
    let t : (b.page == page_of a) ≡ true = ground (arith, e) in rw t refl
Held-has_page a (b ∷ chain) (inr h) = let t = Held-has_page a chain h in ground (arith, t)

-- `chain'` is `chain` without the free object `a`.
pub record TakenFrom (n : ℕ) (chain : List Bucket) (a : ℕ) (chain' : List Bucket) : Type 0 where
  pub pages : (p : ℕ) → has_page p chain' ≡ has_page p chain
  pub here : has_page (page_of a) chain ≡ true
  pub back : give_back (page_of a) a chain' ≡ (chain, false)
  pub sound : IsChain n chain'
  pub was_free : Held a chain → ⊥
  pub now_held : Held a chain'
  pub still_held : (c : ℕ) → Held c chain → Held c chain'

-- The list `free` of a page, taken apart.
pub record Popped (page : ℕ) (free : List ℕ) : Type 0 where
  pub on_page : page_of (get_or free 0 0) ≡ page
  pub whole : get_or free 0 0 ∷ behind_first free ≡ free
  pub inside : AllIn page (behind_first free)
  pub distinct : IsNodup (behind_first free)
  pub first : In (get_or free 0 0) free
  pub absent : In (get_or free 0 0) (behind_first free) → ⊥
  pub others : (c : ℕ) → In c (behind_first free) → In c free
  pub long : length free ≡ length (behind_first free) + 1

pub pop :
    (page : ℕ) (free : List ℕ)
    → get_or free 0 0 ≢ 0
    → AllIn page free
    → IsNodup free
    → Popped page free
unfolding behind_first
pop page [] nz all nd = absurd (nz refl)
pop page (a ∷ free) nz all nd = record {
  on_page = all.0;
  whole = refl;
  inside = all.2;
  distinct = nd.1;
  first = inl refl;
  absent = nd.0;
  others = λ c i. inr i;
  long = omega arith;
}

use_object-TakenFrom :
    (n : ℕ) (b : Bucket) (chain : List Bucket)
    → n ≤ 256
    → freeptr b ≢ 0
    → IsBucket n b
    → has_page b.page chain ≡ false
    → IsChain n chain
    → TakenFrom n (b ∷ chain) (freeptr b) (use_object b ∷ chain)
unfolding has_page give_back
use_object-TakenFrom n b chain small nz good apart rest =
    let p : Popped b.page b.free = pop b.page b.free nz good.inside good.distinct in
    let self : (b.page == b.page) ≡ true = ground arith in
    let s = good.counted in
    let one_more : (b.refcnt + 1) % 2 ^ 16 ≡ b.refcnt + 1 = omega (arith, s) in
    let back : (b.refcnt + 1 + 65535) % 2 ^ 16 ≡ b.refcnt = omega (arith, s) in
    let used : (b.refcnt == 0) ≡ false = let u = good.in_use in ground (arith, u) in
    let e = p.on_page in
    record {
      pages = λ q. refl;
      here = rw (e, self) refl;
      back = rw (e, self, one_more, back, used, p.whole) refl;
      sound = (
        record {
          inside = p.inside;
          distinct = p.distinct;
          in_use = omega (arith, one_more);
          counted = let l = p.long in omega (arith, one_more, s);
        },
        apart,
        rest,
      );
      was_free = λ h. elim h [
        | inl (_, nf) ↦ nf p.first
        | inr k ↦ let t = Held-has_page (freeptr b) chain k in let t' = rw e at t in cc (t', apart)
      ];
      now_held = inl (sym e, p.absent);
      still_held = λ c h. elim h [ inl (q, nf) ↦ inl (q, λ i. nf (p.others c i)) | inr k ↦ inr k ];
    }

behind-TakenFrom :
    (n : ℕ) (b : Bucket) (chain : List Bucket) (a : ℕ) (chain' : List Bucket)
    → IsBucket n b
    → has_page b.page chain ≡ false
    → TakenFrom n chain a chain'
    → TakenFrom n (b ∷ chain) a (b ∷ chain')
unfolding has_page give_back
behind-TakenFrom n b chain a chain' good apart t =
    let ne : b.page ≢ page_of a =
      λ e. let h = rw e at apart in let g = t.here in absurd (cc (h, g)) in
    let away : (b.page == page_of a) ≡ false = ground (arith, ne) in
    record {
      pages = λ p. rw (t.pages p) refl;
      here = rw (away, t.here) refl;
      back = rw (away, t.back) refl;
      sound = (good, t.pages b.page ∙ apart, t.sound);
      was_free = λ h. elim h [ inl (e, _) ↦ ne e | inr k ↦ t.was_free k ];
      now_held = inr t.now_held;
      still_held = λ c h. elim h [ inl x ↦ inl x | inr k ↦ inr (t.still_held c k) ];
    }

pub take_object_lem :
    (n : ℕ) (chain : List Bucket)
    → n ≤ 256
    → IsChain n chain
    → ((a : ℕ) × (chain' : List Bucket) × (take_object chain ≡ some (a, chain'))
        × TakenFrom n chain a chain')
      ⊎ (take_object chain ≡ none)
unfolding take_object
take_object_lem n [] small good = inr refl
take_object_lem n (b ∷ chain) small (good, apart, rest) = elim (Bool-cases (freeptr b == 0)) [
  | inr t ↦ inl (
    freeptr b,
    use_object b ∷ chain,
    rw t refl,
    use_object-TakenFrom n b chain small (ground (arith, t)) good apart rest,
  )
  | inl t ↦ elim (take_object_lem n chain small rest) [
    | inl (a, chain', e, k) ↦
        inl (a, b ∷ chain', rw (t, e) refl, behind-TakenFrom n b chain a chain' good apart k)
    | inr e ↦ inr (rw (t, e) refl)
  ]
]

-- The search for a size.
pub dir_for_lem :
    (len : ℕ) (dirs : List BucketDir)
    → ((i : ℕ) × (dir_for len dirs ≡ some i)
        × (i < length dirs)
        × (len ≤ (get_or dirs i (empty_dir 0)).size))
      ⊎ ((dir_for len dirs ≡ none)
          × ((i : ℕ) → i < length dirs → (get_or dirs i (empty_dir 0)).size < len))
unfolding dir_for
dir_for_lem len [] = inr (refl, λ i l. absurd (omega arith))
dir_for_lem len (d ∷ dirs) = elim (Bool-cases (leb len d.size)) [
  | inl t ↦ inl (0, rw t refl, omega arith, ground (arith, t))
  | inr t ↦ elim (dir_for_lem len dirs) [
    | inl (i, e, l, f) ↦ inl (suc i, rw (t, e) refl, omega arith, f)
    | inr (e, all) ↦ inr (rw (t, e) refl, larger d dirs (ground (arith, t)) all)
  ]
]
  where
    larger :
        (d : BucketDir) (dirs : List BucketDir)
        → d.size < len
        → ((i : ℕ) → i < length dirs → (get_or dirs i (empty_dir 0)).size < len)
        → (i : ℕ) → i < length (d ∷ dirs)
        → (get_or (d ∷ dirs) i (empty_dir 0)).size < len
    larger d dirs here all zero l = here
    larger d dirs here all (suc i) l = all i (omega arith)

-- The search for the bucket of a page.
pub dir_with_lem :
    (page size : ℕ) (dirs : List BucketDir) (i : ℕ)
    → i < length dirs
    → size ≤ (get_or dirs i (empty_dir 0)).size
    → has_page page (get_or dirs i (empty_dir 0)).chain ≡ true
    → ((j : ℕ) → j < i → has_page page (get_or dirs j (empty_dir 0)).chain ≡ false)
    → dir_with page size dirs ≡ some i
unfolding dir_with
dir_with_lem page size [] i l fits here before = absurd (omega arith)
dir_with_lem page size (d ∷ dirs) zero l fits here before =
    let t : (not (ltb d.size size) && has_page page d.chain) ≡ true = ground (arith, fits, here) in
    rw t refl
dir_with_lem page size (d ∷ dirs) (suc i) l fits here before =
    let none_here = before 0 (omega arith) in
    let t : (not (ltb d.size size) && has_page page d.chain) ≡ false = ground (arith, none_here) in
    rw
      (
        t,
        dir_with_lem page size dirs i (omega arith) fits here (λ j k. before (suc j) (omega arith)),
      )
      refl
