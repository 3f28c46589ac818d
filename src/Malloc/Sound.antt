-- ===== src/Malloc/Sound.antt =====
-- malloc keeps the heap sound, and gives what nobody holds.
use linux_0_11_lab.Base.{
  Bool-cases, List, ap, arith, false, get_or-set_ne, inl, inr, length, length-set, refl, sym, true,
  ℕ, ◌+◌, ◌<◌, ◌==◌, ◌∙◌, ◌∷◌, ◌≡◌, ◌≢◌, ◌≤◌, ◌⊎◌,
}
use native.Mathlib.Decide.{ℕ_discrete}
use std.Path.{subst}
use linux_0_11_lab.Malloc.{
  Bucket, Heap, dir_at, empty_dir, freeptr, has_page, malloc, page_of, put_chain, use_object,
}
use linux_0_11_lab.Malloc.Cases.{malloc_new, malloc_old, page_nowhere}
use linux_0_11_lab.Malloc.Chains.{
  Held, Held-has_page, IsChain, TakenFrom, dir_for_lem, take_object_lem,
}
use linux_0_11_lab.Malloc.Heaps.{IsHeap, changed, changed_here, objects_in}
use linux_0_11_lab.Malloc.Objects.{Started, first_object, fresh-Started}
use linux_0_11_lab.Malloc.Pages.{Exhausted, Grown, fresh, new_bucket_lem}
use linux_0_11_lab.Malloc.Spaced.{
  AllAt-first, AtPlace, IsSpaced, IsSpacedChain, disjoint, fresh-AllAt, take_object-IsSpaced,
}
use linux_0_11_lab.Mm.Pages.{Memory, ok, panic, total_pages, users}
use linux_0_11_lab.Mm.Pages.Allocate.{IsSized, page_at}

-- What malloc leaves when it gives `a`: a sound heap, in which `a` is held, as it was not before, and
-- all that was held still is.
pub record Handed (h : Heap) (a : ℕ) (h' : Heap) : Type 0 where
  pub sound : IsHeap h'
  pub was_free : (i : ℕ) → Held a (dir_at h i).chain → ⊥
  pub now_held : (i : ℕ) × Held a (dir_at h' i).chain
  pub still_held : (i c : ℕ) → Held c (dir_at h i).chain → Held c (dir_at h' i).chain

module _ (h : Heap) (valid : IsHeap h) (i : ℕ) (l : i < length h.bucket_dir) (chain' : List Bucket)
    (m : Memory) (descs : ℕ) where
  abbrev after : Heap
  after = record {
    bucket_dir = changed h.bucket_dir i l chain';
    free_bucket_desc = descs;
    memory = m;
  }

  -- The chains after the change.
  chain_after :
      (j : ℕ)
      → ((i ≡ j) × (dir_at after j ≡ record (dir_at h i) { chain = chain' }))
        ⊎ ((i ≢ j) × (dir_at after j ≡ dir_at h j))
  chain_after j = elim (ℕ_discrete i j) [
    | yes e ↦ inl (e, ap (dir_at after) (sym e) ∙ changed_here h.bucket_dir i l chain')
    | no ne ↦ inr (ne, get_or-set_ne h.bucket_dir _ (empty_dir 0) ne)
  ]

  module _ (sized : IsSized m)
      (high : (j : ℕ) → j < total_pages → users m (page_at j) ≡ 0 → page_at j < m.high_memory)
      (good : IsChain (objects_in (dir_at h i).size) chain')
      (kept : (p : ℕ) → users h.memory p ≢ 0 → users m p ≢ 0)
      (backed : (p : ℕ) → has_page p chain' ≡ true → users m p ≢ 0)
      (elsewhere : (p j : ℕ)
        → has_page p chain' ≡ true
        → i ≢ j
        → has_page p (dir_at h j).chain ≡ false) where
    after-apart :
        (j k p : ℕ)
        → j ≢ k
        → has_page p (dir_at after j).chain ≡ true
        → has_page p (dir_at after k).chain ≡ false
    after-apart j k p ne t = elim (chain_after j) [
      | inl (ij, ej) ↦ elim (chain_after k) [
        | inl (ik, _) ↦ absurd (ne (sym ij ∙ ik))
        | inr (nk, ek) ↦
            let t' : has_page p chain' ≡ true = sym (ap (λ d. has_page p d.chain) ej) ∙ t in
            ap (λ d. has_page p d.chain) ek ∙ elsewhere p k t' nk
      ]
      | inr (nj, ej) ↦
          let t' : has_page p (dir_at h j).chain ≡ true =
            sym (ap (λ d. has_page p d.chain) ej) ∙ t in
          elim (chain_after k) [
            | inr (_, ek) ↦ ap (λ d. has_page p d.chain) ek ∙ valid.apart j k p ne t'
            | inl (_, ek) ↦
                ap (λ d. has_page p d.chain) ek ∙ elim (Bool-cases (has_page p chain')) [
                  | inr absent ↦ absent
                  | inl there ↦ let z = elsewhere p j there nj in absurd (cc (z, t'))
                ]
          ]
    ]

    after-IsHeap : IsHeap after
    after-IsHeap = record {
      sized = sized;
      high = high;
      sizes = λ j lj. elim (chain_after j) [
        | inl (_, e) ↦ rw (ap (λ d. d.size) e) (valid.sizes i l)
        | inr (_, e) ↦
            let n = length-set h.bucket_dir i (record (dir_at h i) { chain = chain' }) in
            rw (ap (λ d. d.size) e) (valid.sizes j (omega (arith, n, lj)))
      ];
      chains =
          λ j. elim (chain_after j) [ inl (_, e) ↦ rw e good | inr (_, e) ↦ rw e (valid.chains j) ];
      apart = after-apart;
      backed = λ j p t. elim (chain_after j) [
        | inl (_, e) ↦ backed p (sym (ap (λ d. has_page p d.chain) e) ∙ t)
        | inr (_, e) ↦ kept p (valid.backed j p (sym (ap (λ d. has_page p d.chain) e) ∙ t))
      ];
    }

-- The object of a bucket that was there.
Handed-old :
    (h : Heap)
    → IsHeap h
    → (i : ℕ) → i < length h.bucket_dir
    → (a : ℕ) (chain' : List Bucket)
    → TakenFrom (objects_in (dir_at h i).size) (dir_at h i).chain a chain'
    → Handed h a (put_chain i chain' h)
Handed-old h valid i l a chain' k = record {
  sound =
      after-IsHeap h valid i l chain' h.memory h.free_bucket_desc valid.sized valid.high k.sound
        (λ p u. u) (λ p t. valid.backed i p (sym (k.pages p) ∙ t))
        (λ p j t ne. valid.apart i j p ne (sym (k.pages p) ∙ t));
  was_free = λ j held. elim (ℕ_discrete i j) [
    | yes e ↦ k.was_free (rw (sym e) at held)
    | no ne ↦
        let t = Held-has_page a (dir_at h j).chain held in
        let z = valid.apart i j (page_of a) ne k.here in absurd (cc (t, z))
  ];
  now_held = (i, rw (changed_here h.bucket_dir i l chain') k.now_held);
  still_held = λ j c held. elim (chain_after h valid i l chain' h.memory h.free_bucket_desc j) [
    | inl (e, q) ↦ rw q (k.still_held c (rw (sym e) at held))
    | inr (_, q) ↦ rw q held
  ];
}

-- The object of a new bucket.
Handed-new :
    (h : Heap) (valid : IsHeap h) (i : ℕ) (l : i < length h.bucket_dir) (n : ℕ) (h2 : Heap)
    → Grown h n h2
    → Handed h (page_at n) (record h2 {
      bucket_dir =
          changed h.bucket_dir i l
            (use_object (fresh (dir_at h i).size (page_at n)) ∷ (dir_at h i).chain);
    })
unfolding has_page
Handed-new h valid i l n h2 grown =
    let page : ℕ = page_at n in
    let size : ℕ = (dir_at h i).size in
    let chain : List Bucket = (dir_at h i).chain in
    let b : Bucket = fresh size page in
    let nowhere = page_nowhere h valid page grown.was_free in
    let one = grown.one_user in
    let s : Started (objects_in size) b chain =
      fresh-Started size page chain (valid.sizes i l) (omega arith) (omega arith) (nowhere i)
        (valid.chains i) in
    let first : freeptr b ≡ page =
      first_object (objects_in size) size page (valid.sizes i l).some_fit in
    record {
      sound =
          after-IsHeap h valid i l (use_object b ∷ chain) h2.memory h2.free_bucket_desc grown.sized
            (λ j lj z. rw grown.high (
              valid.high j lj (elim (ℕ_discrete (users h.memory (page_at j)) 0) [
                | yes e ↦ e
                | no nz ↦ absurd (grown.kept (page_at j) nz z)
              ])))
            s.sound grown.kept
            (λ p t. elim (ℕ_discrete page p) [
              | yes e ↦ rw (sym e) (λ z. absurd (cc (one, z)))
              | no ne ↦
                  let y : (page == p) ≡ false = ground arith in
                  let t' : has_page p chain ≡ true = rw y at t in grown.kept p (valid.backed i p t')
            ])
            (λ p j t ne. elim (ℕ_discrete page p) [
              | yes e ↦ rw (sym e) (nowhere j)
              | no away ↦
                  let y : (page == p) ≡ false = ground arith in
                  let t' : has_page p chain ≡ true = rw y at t in valid.apart i j p ne t'
            ]);
      was_free = λ j held.
          let t = Held-has_page page (dir_at h j).chain held in
          let on_page : page_of page ≡ page = omega arith in
          let t' = rw on_page at t in let z = nowhere j in absurd (cc (t', z));
      now_held = (
        i,
        rw (changed_here h.bucket_dir i l (use_object b ∷ chain))
            (subst (λ a. Held a (use_object b ∷ chain)) first s.now_held),
      );
      still_held = λ j c held.
          elim (chain_after h valid i l (use_object b ∷ chain) h2.memory h2.free_bucket_desc j) [
            | inl (e, q) ↦ rw q (inr (rw (sym e) at held))
            | inr (_, q) ↦ rw q held
          ];
    }

-- Where the object `a` for `len` bytes lies.
pub record Placed (len a : ℕ) (h' : Heap) : Type 0 where
  pub dir : ℕ
  pub held : Held a (dir_at h' dir).chain
  pub large : len ≤ (dir_at h' dir).size
  pub place : AtPlace (dir_at h' dir).size a
  pub spaced : IsSpaced h'

-- The chain `i` of a spaced heap changed.
Placed-after :
    (h : Heap) (valid : IsHeap h) (i : ℕ) (l : i < length h.bucket_dir) (chain' : List Bucket)
    (m : Memory) (descs len a : ℕ)
    → IsSpaced h
    → len ≤ (dir_at h i).size
    → Held a chain'
    → AtPlace (dir_at h i).size a
    → IsSpacedChain (dir_at h i).size chain'
    → Placed len a (after h valid i l chain' m descs)
Placed-after h valid i l chain' m descs len a spaced fits held place good = record {
  dir = i;
  held = rw (changed_here h.bucket_dir i l chain') held;
  large = rw (changed_here h.bucket_dir i l chain') fits;
  place = rw (changed_here h.bucket_dir i l chain') place;
  spaced = λ j. elim (chain_after h valid i l chain' m descs j) [
    | inl (_, q) ↦ rw q good
    | inr (_, q) ↦ rw q (spaced j)
  ];
}

-- The first object of a new bucket.
Placed-new :
    (h : Heap) (valid : IsHeap h) (i : ℕ) (l : i < length h.bucket_dir) (n len : ℕ) (h2 : Heap)
    → Grown h n h2
    → IsSpaced h
    → len ≤ (dir_at h i).size
    → Placed len (page_at n) (record h2 {
      bucket_dir =
          changed h.bucket_dir i l
            (use_object (fresh (dir_at h i).size (page_at n)) ∷ (dir_at h i).chain);
    })
Placed-new h valid i l n len h2 grown spaced fits =
    let page : ℕ = page_at n in
    let size : ℕ = (dir_at h i).size in
    let b : Bucket = fresh size page in
    let s : Started (objects_in size) b (dir_at h i).chain =
      fresh-Started size page (dir_at h i).chain (valid.sizes i l) (omega arith) (omega arith)
        (page_nowhere h valid page grown.was_free i) (valid.chains i) in
    let first : freeptr b ≡ page =
      first_object (objects_in size) size page (valid.sizes i l).some_fit in
    let held : Held page (use_object b ∷ (dir_at h i).chain) =
      subst (λ a. Held a (use_object b ∷ (dir_at h i).chain)) first s.now_held in
    let all = fresh-AllAt size page (valid.sizes i l) (omega arith) in
    let (place, rest) = AllAt-first size b.free all (λ z. absurd (omega (arith, z, first))) in
    Placed-after h valid i l (use_object b ∷ (dir_at h i).chain) h2.memory h2.free_bucket_desc len
      page spaced fits held (subst (AtPlace size) first place) (rest, spaced i)

-- In a sound heap whose free objects are spaced by the sizes of their chains, malloc gives an object
-- that was not held, and holds it, in a heap that is sound and spaced again and in which all that was
-- held still is. The object has room for the length, and lies at a place of the size of its chain, so
-- that it overlaps no other object there. There is none only if the length is above all sizes, or
-- there is no page for a new bucket and its descriptor.
pub malloc-IsHeap :
    (len : ℕ) (h : Heap)
    → IsHeap h
    → IsSpaced h
    → ((a : ℕ) × (h' : Heap) × (malloc len h ≡ ok (a, h'))
        × Handed h a h'
        × ((p : Placed len a h') × ((c : ℕ)
              → AtPlace (dir_at h' p.dir).size c
              → c ≢ a
              → (c + (dir_at h' p.dir).size ≤ a) ⊎ (a + (dir_at h' p.dir).size ≤ c))))
      ⊎ ((malloc len h ≡ panic)
          × (((i : ℕ) → i < length h.bucket_dir → (dir_at h i).size < len) ⊎ Exhausted h))
unfolding malloc
malloc-IsHeap len h valid spaced = elim (dir_for_lem len h.bucket_dir) [
  | inr (e, all) ↦ inr (rw (e, malloc) refl, inl all)
  | inl (i, e, l, fits) ↦
      elim (take_object_lem (objects_in (dir_at h i).size) (dir_at h i).chain
        (valid.sizes i l).few_fit (valid.chains i)) [
          | inl (a, chain', t, k) ↦
              let (place, good) =
                take_object-IsSpaced (dir_at h i).size (dir_at h i).chain (spaced i) a chain' t in
              let p : Placed len a (put_chain i chain' h) =
                Placed-after h valid i l chain' h.memory h.free_bucket_desc len a spaced fits
                  k.now_held place good in
              inl (
                a,
                put_chain i chain' h,
                malloc_old len h i e a chain' t,
                Handed-old h valid i l a chain' k,
                (p, λ c at ne. disjoint _ a c p.place at ne),
              )
          | inr t ↦ elim (new_bucket_lem (dir_at h i).size h valid.sized valid.high) [
            | inl (n, h2, q, grown) ↦
                let p = Placed-new h valid i l n len h2 grown spaced fits in
                inl (
                  page_at n,
                  _,
                  malloc_new len h valid i l e t n h2 q grown,
                  Handed-new h valid i l n h2 grown,
                  (p, λ c at ne. disjoint _ (page_at n) c p.place at ne),
                )
            | inr (q, poor) ↦ inr (rw (e, malloc, t, q) refl, inr poor)
          ]
        ]
]
