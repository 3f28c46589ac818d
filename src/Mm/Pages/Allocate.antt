-- ===== src/Mm/Pages/Allocate.antt =====
-- What get_free_page and free_page do to the counts and to memory.
use linux_0_11_lab.Base.{
  List, ap, arith, false, get_or, get_or-default, get_or-set_ne, get_or-set_self, inl, inr, leb,
  length, length-set, ltb, none, refl, set, set-get_or, set-set, some, suc, sym, zero, ℕ, ◌*◌, ◌+◌,
  ◌/◌, ◌<◌, ◌==◌, ◌∙◌, ◌≡◌, ◌≢◌, ◌⊎◌,
}
use native.Mathlib.Decide.{ℕ_discrete}
use linux_0_11_lab.Mm.Pages.{
  Memory, clear_page, find_free, free_page, get_free_page, low_mem, map_nr, ok, page_size,
  total_pages, users,
}

pub find_free_lem :
    (counts : List ℕ) (n : ℕ)
    → ((i : ℕ) × (find_free counts n ≡ some i)
        × (i < n)
        × (get_or counts i 1 ≡ 0)
        × ((j : ℕ) → i < j → j < n → get_or counts j 1 ≢ 0))
      ⊎ ((find_free counts n ≡ none) × ((j : ℕ) → j < n → get_or counts j 1 ≢ 0))
unfolding find_free
find_free_lem counts zero = inr (refl, λ j l. absurd (omega arith))
find_free_lem counts (suc n) = elim (ℕ_discrete (get_or counts n 1) 0) [
  | yes e ↦ inl (n, rw e refl, omega arith, e, λ j l k. absurd (omega arith))
  | no ne ↦
      let z : (get_or counts n 1 == 0) ≡ false = ground arith in
      let last : (j : ℕ) → j ≡ n → get_or counts j 1 ≢ 0 = λ j e. rw e ne in
      elim (find_free_lem counts n) [
        | inl (i, e, l, f, above) ↦ inl (
          i,
          rw z e,
          omega arith,
          f,
          λ j a b. elim (ℕ_discrete j n) [
            | yes same ↦ last j same
            | no other ↦ above j a (omega arith)
          ],
        )
        | inr (e, all) ↦ inr (
          rw z e,
          λ j b. elim (ℕ_discrete j n) [ yes same ↦ last j same | no other ↦ all j (omega arith) ],
        )
      ]
]

-- The address of page number `i`.
abbrev pub page_at : ℕ → ℕ
page_at i = low_mem + i * page_size

abbrev pub IsSized : Memory → Type 0
IsSized m = length m.memory_map ≡ total_pages

-- What get_free_page leaves when page number `i` is free.
pub record Allocated (m : Memory) (i : ℕ) (m' : Memory) : Type 0 where
  pub in_range : i < total_pages
  pub was_free : users m (page_at i) ≡ 0
  pub one_user : users m' (page_at i) ≡ 1
  pub others : (addr : ℕ) → map_nr addr ≢ i → users m' addr ≡ users m addr
  pub cleared : (a : ℕ) → a / 1024 ≡ page_at i / 4096 → m'.ram a ≡ 0
  pub kept : (a : ℕ) → a / 1024 ≢ page_at i / 4096 → m'.ram a ≡ m.ram a
  pub sized : IsSized m'
  pub high : m'.high_memory ≡ m.high_memory

pub map_nr-page_at : (i : ℕ) → map_nr (page_at i) ≡ i
map_nr-page_at i = omega arith

-- get_free_page returns 0 and changes nothing when every page has a user. Otherwise it returns the
-- address of the last page that has none; it gives that page one user and clears it, and changes
-- no other count and no word outside of the page.
pub get_free_page_lem :
    (m : Memory)
    → IsSized m
    → ((get_free_page m ≡ (0, m)) × ((j : ℕ) → j < total_pages → users m (page_at j) ≢ 0))
      ⊎ ((i : ℕ) × ((get_free_page m).0 ≡ page_at i)
          × Allocated m i (get_free_page m).1
          × ((j : ℕ) → i < j → j < total_pages → users m (page_at j) ≢ 0))
unfolding get_free_page clear_page
get_free_page_lem m s = elim (find_free_lem m.memory_map total_pages) [
  | inl (i, e, l, f, above) ↦ inr (
    i,
    rw (e, get_free_page) refl,
    rw (e, get_free_page)
        (record {
          in_range = l;
          was_free = rw (map_nr-page_at i, same i l) f;
          one_user = rw (map_nr-page_at i) (get_or-set_self m.memory_map i 1 0 (omega arith));
          others = λ addr ne. get_or-set_ne m.memory_map 1 0 (λ h. ne (sym h));
          cleared = λ a h. ground (arith, h);
          kept = λ a h. ground (arith, h);
          sized = length-set m.memory_map i 1 ∙ s;
          high = refl;
        }),
    λ j a b. rw (map_nr-page_at j, same j b) (above j a b),
  )
  | inr (e, all) ↦
      inl (rw (e, get_free_page) refl, λ j b. rw (map_nr-page_at j, same j b) (all j b))
]
  where
    same : (j : ℕ) → j < total_pages → get_or m.memory_map j 0 ≡ get_or m.memory_map j 1
    same j l = get_or-default m.memory_map j 0 1 (omega arith)

abbrev pub taken : ℕ → Memory → Memory
taken i m = record m { memory_map = set m.memory_map i 1; ram = clear_page (page_at i) m.ram }

pub get_free_page-some :
    (m : Memory) (i : ℕ)
    → find_free m.memory_map total_pages ≡ some i
    → get_free_page m ≡ (page_at i, taken i m)
unfolding get_free_page
get_free_page-some m i e = rw (e, get_free_page) refl

get_free_page-none :
    (m : Memory) → find_free m.memory_map total_pages ≡ none → get_free_page m ≡ (0, m)
unfolding get_free_page
get_free_page-none m e = rw (e, get_free_page) refl

-- Freeing the page of a single user.
free_page-last_user :
    (m : Memory) (i : ℕ)
    → page_at i < m.high_memory
    → get_or m.memory_map i 0 ≡ 1
    → free_page (page_at i) m ≡ ok (record m { memory_map = set m.memory_map i 0 })
unfolding free_page
free_page-last_user m i h one =
    let a : ltb (page_at i) low_mem ≡ false = ground arith in
    let b : leb m.high_memory (page_at i) ≡ false = ground (arith, h) in
    let n = map_nr-page_at i in rw (a, b, n, one) refl

-- free_page undoes get_free_page: where a page was found below the end of memory, the counts are
-- again what they were.
pub free_page-get_free_page :
    (m : Memory)
    → IsSized m
    → (get_free_page m).0 ≢ 0
    → (get_free_page m).0 < m.high_memory
    → (m' : Memory) × (free_page (get_free_page m).0 (get_free_page m).1 ≡ ok m')
      × (m'.memory_map ≡ m.memory_map)
free_page-get_free_page m s nz h = elim (find_free_lem m.memory_map total_pages) [
  | inl (i, e, l, f, above) ↦
      let g = get_free_page-some m i e in
      let lt : page_at i < m.high_memory = rw g at h in
      let one : get_or (set m.memory_map i 1) i 0 ≡ 1 =
        get_or-set_self m.memory_map i 1 0 (omega arith) in
      let zero_there : get_or m.memory_map i 0 ≡ 0 =
        get_or-default m.memory_map i 0 1 (omega arith) ∙ f in
      (
        record m {
          memory_map = set (set m.memory_map i 1) i 0;
          ram = clear_page (page_at i) m.ram;
        },
        rw g (free_page-last_user (taken i m) i lt one),
        set-set m.memory_map i 1 0
            ∙ ap (set m.memory_map i) (sym zero_there)
            ∙ set-get_or m.memory_map i 0,
      )
  | inr (e, all) ↦ absurd (nz (rw (get_free_page-none m e) refl))
]
