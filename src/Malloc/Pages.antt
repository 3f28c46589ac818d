-- ===== src/Malloc/Pages.antt =====
-- The pages that the allocator takes for its buckets and their descriptors.
use linux_0_11_lab.Base.{
  Bool-cases, ap, arith, false, get_or, inl, inr, none, refl, some, sym, ℕ, ◌+◌, ◌-◌, ◌/◌, ◌<◌,
  ◌==◌, ◌∙◌, ◌≡◌, ◌≢◌, ◌⊎◌,
}
use native.Mathlib.Decide.{ℕ_discrete}
use linux_0_11_lab.Malloc.{Bucket, Heap, need_bucket_desc, new_bucket, objects}
use linux_0_11_lab.Mm.Pages.{
  Memory, free_page, get_free_page, map_nr, ok, page_size, total_pages, users,
}
use linux_0_11_lab.Mm.Pages.Allocate.{
  Allocated, IsSized, free_page-get_free_page, get_free_page_lem, map_nr-page_at, page_at,
}

-- Too few pages for another bucket: none at all, or, where its descriptor needs a page too, not two.
abbrev pub Exhausted : Heap → Type 0
Exhausted h =
    (h.free_bucket_desc ≢ 0 → (j : ℕ) → j < total_pages → users h.memory (page_at j) ≢ 0)
    × ((j k : ℕ)
        → j < total_pages
        → k < total_pages
        → j ≢ k
        → (users h.memory (page_at j) ≢ 0) ⊎ (users h.memory (page_at k) ≢ 0))

-- `h1` is `h` with a free descriptor.
record Ready (h h1 : Heap) : Type 0 where
  dirs : h1.bucket_dir ≡ h.bucket_dir
  sized : IsSized h1.memory
  high : h1.memory.high_memory ≡ h.memory.high_memory
  still_used : (j : ℕ) → users h1.memory (page_at j) ≡ 0 → users h.memory (page_at j) ≡ 0
  desc : h1.free_bucket_desc ≢ 0
  same : h.free_bucket_desc ≢ 0 → h1 ≡ h
  kept : (addr : ℕ) → users h.memory addr ≢ 0 → users h1.memory addr ≢ 0

-- The pages with a user besides page `i`.
others_used :
    (j i : ℕ) (h h1 : Heap)
    → Allocated h.memory i h1.memory
    → users h1.memory (page_at j) ≡ 0
    → users h.memory (page_at j) ≡ 0
others_used j i h h1 a z = elim (ℕ_discrete j i) [
  | yes e ↦ let z' = rw e at z in let one = a.one_user in absurd (omega arith)
  | no ne ↦ let o = a.others (page_at j) (λ q. ne (sym (map_nr-page_at j) ∙ q)) in sym o ∙ z
]

-- No page that has a user loses it.
users_kept :
    (m : Memory) (i : ℕ) (m' : Memory)
    → Allocated m i m'
    → (addr : ℕ) → users m addr ≢ 0
    → users m' addr ≢ 0
users_kept m i m' a addr u = elim (ℕ_discrete (map_nr addr) i) [
  | no ne ↦ λ z. u (sym (a.others addr ne) ∙ z)
  | yes e ↦
      let one : get_or m'.memory_map (map_nr addr) 0 ≡ 1 =
        ap (λ k. get_or m'.memory_map k 0) (e ∙ sym (map_nr-page_at i)) ∙ a.one_user in
      λ z. absurd (cc (one, z))
]

need_bucket_desc_lem :
    (h : Heap)
    → IsSized h.memory
    → ((h1 : Heap) × (need_bucket_desc h ≡ some h1)
        × Ready h h1
        × ((h1 ≡ h) ⊎ ((i : ℕ) × (i < total_pages) × (Allocated h.memory i h1.memory))))
      ⊎ ((need_bucket_desc h ≡ none)
          × (h.free_bucket_desc ≡ 0)
          × ((j : ℕ) → j < total_pages → users h.memory (page_at j) ≢ 0))
unfolding need_bucket_desc
need_bucket_desc_lem h sized = elim (Bool-cases (h.free_bucket_desc == 0)) [
  | inr t ↦ inl (
    h,
    rw t refl,
    record {
      dirs = refl;
      sized = sized;
      high = refl;
      still_used = λ j z. z;
      desc = ground (arith, t);
      same = λ nz. refl;
      kept = λ addr u. u;
    },
    inl refl,
  )
  | inl t ↦ elim (get_free_page_lem h.memory sized) [
    | inl (e, all) ↦ inr (rw (t, e) refl, ground (arith, t), all)
    | inr (i, e, a, above) ↦
        let there : ((get_free_page h.memory).0 == 0) ≡ false = rw e (ground arith) in
        let h1 : Heap = record h {
          free_bucket_desc = page_size / 16;
          memory = (get_free_page h.memory).1;
        } in
        inl (
          h1,
          rw (t, there) refl,
          record {
            dirs = refl;
            sized = a.sized;
            high = a.high;
            still_used = λ j z. others_used j i h h1 a z;
            desc = omega arith;
            same = λ nz. absurd (ground (arith, t, nz));
            kept = users_kept h.memory i h1.memory a;
          },
          inr (i, a.in_range, a),
        )
  ]
]

exhausted :
    (h h1 : Heap)
    → Ready h h1
    → (h1 ≡ h) ⊎ ((i : ℕ) × (i < total_pages) × Allocated h.memory i h1.memory)
    → ((j : ℕ) → j < total_pages → users h1.memory (page_at j) ≢ 0)
    → Exhausted h
exhausted h h1 r how all = (
  (λ nz j l z. all j l (ap (λ x. users x.memory (page_at j)) (r.same nz) ∙ z)),
  λ j k lj lk ne. elim how [
    | inl same ↦ inl (λ z. all j lj (ap (λ x. users x.memory (page_at j)) same ∙ z))
    | inr (i, _, a) ↦ elim (ℕ_discrete j i) [
      | no away ↦ inl (used_before j i a lj away)
      | yes e ↦ inr (used_before k i a lk (λ q. ne (e ∙ sym q)))
    ]
  ],
)
  where
    used_before :
        (j i : ℕ)
        → Allocated h.memory i h1.memory
        → j < total_pages
        → j ≢ i
        → users h.memory (page_at j) ≢ 0
    used_before j i a l ne z =
        all j l (a.others (page_at j) (λ q. ne (sym (map_nr-page_at j) ∙ q)) ∙ z)

abbrev pub fresh : ℕ → ℕ → Bucket
fresh size page = record {
  page = page;
  free = objects (page_size / size) size page;
  refcnt = 0;
  bucket_size = size;
}

-- `h2` is `h` without page number `i`, which freeing gives back.
pub record Grown (h : Heap) (i : ℕ) (h2 : Heap) : Type 0 where
  pub dirs : h2.bucket_dir ≡ h.bucket_dir
  pub in_range : i < total_pages
  pub was_free : users h.memory (page_at i) ≡ 0
  pub sized : IsSized h2.memory
  pub high : h2.memory.high_memory ≡ h.memory.high_memory
  pub one_user : users h2.memory (page_at i) ≡ 1
  pub kept : (addr : ℕ) → users h.memory addr ≢ 0 → users h2.memory addr ≢ 0
  pub undone :
      (m : Memory) × (free_page (page_at i) h2.memory ≡ ok m)
      × (h.free_bucket_desc ≢ 0
          → (h2.free_bucket_desc + 1 ≡ h.free_bucket_desc) × (m.memory_map ≡ h.memory.memory_map))

pub new_bucket_lem :
    (size : ℕ) (h : Heap)
    → IsSized h.memory
    → ((j : ℕ)
        → j < total_pages
        → users h.memory (page_at j) ≡ 0
        → page_at j < h.memory.high_memory)
    → ((i : ℕ) × (h2 : Heap) × (new_bucket size h ≡ some (fresh size (page_at i), h2))
        × Grown h i h2)
      ⊎ ((new_bucket size h ≡ none) × Exhausted h)
unfolding new_bucket
new_bucket_lem size h sized high = elim (need_bucket_desc_lem h sized) [
  | inr (e, no_desc, all) ↦
      inr (rw (e, new_bucket) refl, (λ nz. absurd (nz no_desc), λ j k lj lk ne. inl (all j lj)))
  | inl (h1, e, r, how) ↦ elim (get_free_page_lem h1.memory r.sized) [
    | inl (f, all) ↦ inr (rw (e, new_bucket, f) refl, exhausted h h1 r how all)
    | inr (i, f, a, above) ↦
        let there : ((get_free_page h1.memory).0 == 0) ≡ false = rw f (ground arith) in
        let was_free = r.still_used i a.was_free in
        let below : page_at i < h1.memory.high_memory = rw r.high (high i a.in_range was_free) in
        let (m, freed, map_same) =
          free_page-get_free_page h1.memory r.sized (rw f (ground arith)) (rw f below) in
        let h2 : Heap = record h1 {
          free_bucket_desc = h1.free_bucket_desc - 1;
          memory = (get_free_page h1.memory).1;
        } in
        let left : h1.free_bucket_desc - 1 + 1 ≡ h1.free_bucket_desc =
          let d = r.desc in omega (arith, d) in
        inl (
          i,
          h2,
          rw (e, new_bucket, there, f) refl,
          record {
            dirs = r.dirs;
            in_range = a.in_range;
            was_free = was_free;
            sized = a.sized;
            high = a.high ∙ r.high;
            one_user = a.one_user;
            kept =
                λ addr u. users_kept h1.memory i (get_free_page h1.memory).1 a addr (r.kept addr u);
            undone = (
              m,
              rw f at freed,
              λ nz.
                  let same = r.same nz in
                  (
                    left ∙ ap (λ x. x.free_bucket_desc) same,
                    map_same ∙ ap (λ x. x.memory.memory_map) same,
                  ),
            );
          },
        )
  ]
]
