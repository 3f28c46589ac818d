-- ===== src/Mm/Tables/Cow.antt =====
-- Copy on write: what un_wp_page gives the task that writes.
use linux_0_11_lab.Base.{
  Bool-cases, ap, arith, bit_or, false, get_or, get_or-set_ne, get_or-set_self, if◌then◌else◌, inl,
  inr, leb, refl, true, ℕ, ◌%◌, ◌&&◌, ◌*◌, ◌+◌, ◌/◌, ◌<◌, ◌==◌, ◌∙◌, ◌≡◌, ◌≢◌, ◌≤◌, ◌⊎◌,
}
use native.Mathlib.Decide.{dec_lt}
use linux_0_11_lab.Base.Bits.{bit_or-two, bit_or_seven, test_bit, test_bit-or, test_bit-pow}
use linux_0_11_lab.Mm.Pages.{Memory, get_free_page, killed, low_mem, map_nr, ok, total_pages, users}
use linux_0_11_lab.Mm.Pages.Allocate.{
  Allocated, IsSized, get_free_page_lem, map_nr-page_at, page_at,
}
use linux_0_11_lab.Mm.Tables.{copy_page, frame, leave_page_of, poke, un_wp_page}

-- The page that holds an address has a user, or lies below the counted memory.
abbrev pub InUse : Memory → ℕ → Type 0
InUse m addr = (addr < low_mem) ⊎ (users m addr ≢ 0)

-- What a page contains, word by word.
abbrev pub content : Memory → ℕ → ℕ → ℕ
content m page k = m.ram (page / 4 + k)

-- The row at word `p` maps a page of its own, writable, with the content that the old page had.
pub record Private (m : Memory) (p : ℕ) (m' : Memory) : Type 0 where
  pub writable : test_bit (m'.ram p) 1 ≡ true
  pub same_content :
      (k : ℕ) → k < 1024 → content m' (frame (m'.ram p)) k ≡ content m (frame (m.ram p)) k
  pub one_user : users m' (frame (m'.ram p)) ≡ 1
  pub kept : (a : ℕ) → a ≢ p → InUse m (4 * a) → m'.ram a ≡ m.ram a

frame-two : (w : ℕ) → frame (bit_or w 2) ≡ frame w
frame-two w = omega (arith, bit_or-two w)

bit_one-two : (w : ℕ) → test_bit (bit_or w 2) 1 ≡ true
bit_one-two w = test_bit-or 1 w 2 ∙ ground (arith, test_bit-pow 1 1)

-- The page is the row's already.
own_page :
    (p : ℕ) (m : Memory)
    → users m (frame (m.ram p)) ≡ 1
    → p / 1024 ≢ frame (m.ram p) / 4096
    → Private m p (poke p (bit_or (m.ram p) 2) m)
own_page p m one apart = record {
  writable = rw self (bit_one-two (m.ram p));
  same_content = λ k l.
      rw (self, frame-two (m.ram p))
        (let ne : (frame (m.ram p) / 4 + k == p) ≡ false = ground arith in rw ne refl);
  one_user = rw (self, frame-two (m.ram p)) one;
  kept = λ a ne u. let z : (a == p) ≡ false = ground arith in rw z refl;
}
  where
    self : (p == p) ≡ true
    self = ground arith

-- The page that was free is not one that is in use.
apart_of_use :
    (m : Memory) (addr i : ℕ)
    → InUse m addr
    → users m (page_at i) ≡ 0
    → addr / 4096 ≢ page_at i / 4096
apart_of_use m addr i in_use free e = elim in_use [
  | inl low ↦ absurd (omega arith)
  | inr some_user ↦ elim (dec_lt addr low_mem) [
    | yes low ↦ absurd (omega arith)
    | no high ↦
        let n : map_nr addr ≡ map_nr (page_at i) = omega arith in
        absurd (some_user (ap (λ k. get_or m.memory_map k 0) n ∙ free))
  ]
]

-- The memory after the copy, before the names of un_wp_page are put in.
abbrev left_page : ℕ → Memory → Memory
left_page old m = if leb low_mem old then leave_page_of old m else m

abbrev copied : ℕ → Memory → ℕ → Memory → Memory
copied p m i m1 =
    copy_page (frame (m.ram p)) (page_at i)
      (poke p (bit_or (page_at i) 7) (left_page (frame (m.ram p)) m1))

left_page-ram : (old : ℕ) (m : Memory) (a : ℕ) → (left_page old m).ram a ≡ m.ram a
left_page-ram old m a = ground arith

left_page-users :
    (old : ℕ) (m : Memory) (i : ℕ)
    → old / 4096 ≢ page_at i / 4096
    → users (left_page old m) (page_at i) ≡ users m (page_at i)
left_page-users old m i ne = elim (Bool-cases (leb low_mem old)) [
  | inl h ↦
      let n : map_nr old ≢ map_nr (page_at i) = ground arith in
      rw h (get_or-set_ne m.memory_map _ 0 n)
  | inr h ↦ rw h refl
]

-- Below 256 users, the old page has one user less.
left_page-old :
    (old : ℕ) (m : Memory)
    → IsSized m
    → low_mem ≤ old
    → map_nr old < total_pages
    → 1 ≤ users m old
    → users m old < 256
    → users (left_page old m) old + 1 ≡ users m old
left_page-old old m s h r a b =
    let t : leb low_mem old ≡ true = ground arith in
    rw t (
      rw (get_or-set_self m.memory_map (map_nr old) ((users m old + 255) % 256) 0 (omega arith))
        (omega arith))

seven : test_bit 7 1 ≡ true
unfolding test_bit
seven = refl

module _ (p : ℕ) (m : Memory) (i : ℕ) (m1 : Memory) (alloc : Allocated m i m1)
    (row : InUse m (4 * p)) (old : InUse m (frame (m.ram p)))
    (apart : p / 1024 ≢ frame (m.ram p) / 4096) where
  row_outside : p / 1024 ≢ page_at i / 4096
  row_outside = omega (arith, apart_of_use m (4 * p) i row alloc.was_free)

  old_outside : frame (m.ram p) / 4096 ≢ page_at i / 4096
  old_outside = apart_of_use m (frame (m.ram p)) i old alloc.was_free

  copied_row : (copied p m i m1).ram p ≡ bit_or (page_at i) 7
  unfolding copy_page
  copied_row =
      let z : (p / 1024 == page_at i / 4096) ≡ false = ground (arith, row_outside) in
      let self : (p == p) ≡ true = ground arith in rw (z, self) refl

  copied_elsewhere :
      (a : ℕ) → a ≢ p → a / 1024 ≢ page_at i / 4096 → (copied p m i m1).ram a ≡ m.ram a
  unfolding copy_page
  copied_elsewhere a ne out =
      let z : (a / 1024 == page_at i / 4096) ≡ false = ground arith in
      let n : (a == p) ≡ false = ground arith in
      rw (z, n) (left_page-ram (frame (m.ram p)) m1 a ∙ alloc.kept a out)

  content-copied :
      (k : ℕ) → k < 1024 → content (copied p m i m1) (page_at i) k ≡ content m (frame (m.ram p)) k
  unfolding copy_page
  content-copied k l =
      let a = frame (m.ram p) / 4 + k in
      let z : ((page_at i / 4 + k) / 1024 == page_at i / 4096) ≡ true = ground arith in
      let same : (page_at i / 4 + k) % 1024 ≡ k = omega arith in
      let n : (a == p) ≡ false = ground (arith, apart) in
      let out : a / 1024 ≢ page_at i / 4096 = omega (arith, old_outside) in
      rw (z, same, n) (left_page-ram (frame (m.ram p)) m1 a ∙ alloc.kept a out)

  copied-Private : Private m p (copied p m i m1)
  unfolding copy_page
  copied-Private =
      let f : frame (bit_or (page_at i) 7) ≡ page_at i = omega (arith, bit_or_seven (page_at i)) in
      record {
        writable = rw copied_row (test_bit-or 1 (page_at i) 7 ∙ ground (arith, seven));
        same_content = λ k l. rw (copied_row, f) (content-copied k l);
        one_user =
            rw (copied_row, f)
              (left_page-users (frame (m.ram p)) m1 i old_outside ∙ alloc.one_user);
        kept = λ a ne in_use.
            copied_elsewhere a ne (omega (arith, apart_of_use m (4 * a) i in_use alloc.was_free));
      }

  copied-old :
      IsSized m1
      → low_mem ≤ frame (m.ram p)
      → map_nr (frame (m.ram p)) < total_pages
      → users m (frame (m.ram p)) < 256
      → users (copied p m i m1) (frame (m.ram p)) + 1 ≡ users m (frame (m.ram p))
  unfolding copy_page
  copied-old s h r b =
      let n : map_nr (frame (m.ram p)) ≢ i = omega (arith, old_outside, map_nr-page_at i) in
      let u = alloc.others (frame (m.ram p)) n in
      let some_user : 1 ≤ users m (frame (m.ram p)) = ground (arith, old) in
      left_page-old (frame (m.ram p)) m1 s h r (omega (arith, u)) (omega (arith, u)) ∙ u

-- Each page table entry's page has its own row of the count table, or none.
abbrev pub InMap : Memory → ℕ → Type 0
InMap m addr = (map_nr addr < total_pages) × (users m addr < 256)

-- un_wp_page, on a row of a page table whose page and whose own page table are in use and are not
-- the same page, either gives the row a writable page with one user and the content of the old
-- page, or kills the task because no page is free. It changes no other word of a page in use. A
-- page above 1 MB that had several users has one user less.
pub un_wp_page_lem :
    (p : ℕ) (m : Memory)
    → IsSized m
    → InUse m (4 * p)
    → InUse m (frame (m.ram p))
    → InMap m (frame (m.ram p))
    → p / 1024 ≢ frame (m.ram p) / 4096
    → ((m' : Memory) × (un_wp_page p m ≡ ok m')
        × Private m p m'
        × ((users m (frame (m.ram p)) ≡ 1)
            ⊎ (frame (m.ram p) < low_mem)
            ⊎ (users m' (frame (m.ram p)) + 1 ≡ users m (frame (m.ram p)))))
      ⊎ ((un_wp_page p m ≡ killed) × ((j : ℕ) → j < total_pages → users m (page_at j) ≢ 0))
unfolding un_wp_page
un_wp_page_lem p m s row old fits apart =
    elim (Bool-cases (leb low_mem (frame (m.ram p)) && users m (frame (m.ram p)) == 1)) [
      | inl t ↦
          let one : users m (frame (m.ram p)) ≡ 1 = ground (arith, t) in
          inl (poke p (bit_or (m.ram p) 2) m, rw t refl, own_page p m one apart, inl one)
      | inr t ↦ elim (get_free_page_lem m s) [
        | inl (e, all) ↦ inr (rw (t, e) refl, all)
        | inr (i, e, alloc, _) ↦
            let z : (page_at i == 0) ≡ false = ground arith in
            let m1 = (get_free_page m).1 in
            inl (
              copied p m i m1,
              rw (t, e, z) refl,
              copied-Private p m i m1 alloc row old apart,
              elim (dec_lt (frame (m.ram p)) low_mem) [
                | yes l ↦ inr (inl l)
                | no g ↦ inr (
                    inr (
                      copied-old p m i m1 alloc row old apart alloc.sized (omega arith) (fits.0)
                        (fits.1)))
              ],
            )
      ]
    ]
