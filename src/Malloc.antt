-- ===== src/Malloc.antt =====
-- The kernel allocator, linux-0.11/lib/malloc.c. The objects of a bucket that are free are the list
-- from `freeptr` on; the words in them that link them are not kept in memory. A descriptor of a
-- bucket that is in no chain is only counted.
pub mod Chains
pub mod Pages
pub mod Heaps
pub mod Objects
pub mod Spaced
pub mod Cases
pub mod Trip
pub mod Sound
mod Tests
use linux_0_11_lab.Base.{
  Bool, List, Option, [], false, get_or, if◌then◌else◌, leb, ltb, none, not, set, some, suc, true,
  zero, ℕ, ◌%◌, ◌&&◌, ◌+◌, ◌-◌, ◌/◌, ◌==◌, ◌^◌, ◌||◌, ◌∷◌,
}
use linux_0_11_lab.Mm.Pages.{Memory, Result, free_page, get_free_page, killed, ok, page_size, panic}

pub record Bucket : Type 0 where
  pub page : ℕ
  pub free : List ℕ
  pub refcnt : ℕ
  pub bucket_size : ℕ

pub record BucketDir : Type 0 where
  pub size : ℕ
  pub chain : List Bucket

pub record Heap : Type 0 where
  pub bucket_dir : List BucketDir
  pub free_bucket_desc : ℕ
  pub memory : Memory

abbrev pub empty_dir : ℕ → BucketDir
empty_dir size = record { size = size; chain = [] }

-- The sizes of `bucket_dir`.
abbrev pub bucket_sizes : List ℕ
bucket_sizes = 16 ∷ 32 ∷ 64 ∷ 128 ∷ 256 ∷ 512 ∷ 1024 ∷ 2048 ∷ 4096 ∷ []

abbrev pub dir_at : Heap → ℕ → BucketDir
dir_at h i = get_or h.bucket_dir i (empty_dir 0)

abbrev pub put_chain : ℕ → List Bucket → Heap → Heap
put_chain i chain h = record h {
  bucket_dir = set h.bucket_dir i (record (dir_at h i) { chain = chain });
}

-- freeptr, 0 for NULL.
abbrev pub freeptr : Bucket → ℕ
freeptr b = get_or b.free 0 0

pub behind_first : List ℕ → List ℕ
behind_first [] = []
behind_first (a ∷ free) = free

-- The number of the first size that is large enough.
pub dir_for : ℕ → List BucketDir → Option ℕ
dir_for len [] = none
dir_for len (d ∷ dirs) =
    let later : Option ℕ = elim (dir_for len dirs) [ none ↦ none | some i ↦ some (suc i) ] in
    if leb len d.size then some 0 else later

-- init_bucket_desc, if no descriptor is free; none if it panics.
pub need_bucket_desc : Heap → Option Heap
need_bucket_desc h =
    let (page, m) = get_free_page h.memory in
    if not (h.free_bucket_desc == 0)
    then some h
    else if page == 0
    then none
    else some (record h { free_bucket_desc = page_size / 16; memory = m })

-- The chain of free objects in a new bucket.
pub objects : ℕ → ℕ → ℕ → List ℕ
objects zero size cp = []
objects (suc n) size cp = cp ∷ objects n size (cp + size)

-- A new bucket, not yet in its chain; none if there is no page for it.
pub new_bucket : ℕ → Heap → Option (Bucket × Heap)
new_bucket size h = elim (need_bucket_desc h) [
  | none ↦ none
  | some h1 ↦
      let (page, m) = get_free_page h1.memory in
      if page == 0
      then none
      else some (
        record {
          page = page;
          free = objects (page_size / size) size page;
          refcnt = 0;
          bucket_size = size;
        },
        record h1 { free_bucket_desc = h1.free_bucket_desc - 1; memory = m },
      )
]

abbrev pub use_object : Bucket → Bucket
use_object b = record b { free = behind_first b.free; refcnt = (b.refcnt + 1) % 2 ^ 16 }

-- The first object of the first bucket that has a free one.
pub take_object : List Bucket → Option (ℕ × List Bucket)
take_object [] = none
take_object (b ∷ chain) =
    let later : Option (ℕ × List Bucket) = elim (take_object chain) [
      | none ↦ none
      | some r ↦ some (r.0, b ∷ r.1)
    ] in
    if freeptr b == 0 then later else some (freeptr b, use_object b ∷ chain)

pub malloc : ℕ → Heap → Result (ℕ × Heap)
malloc len h = elim (dir_for len h.bucket_dir) [
  | none ↦ panic
  | some i ↦
      let d = dir_at h i in
      elim (take_object d.chain) [
        | some (a, chain) ↦ ok (a, put_chain i chain h)
        | none ↦ elim (new_bucket d.size h) [
          | none ↦ panic
          | some (b, h1) ↦ ok (freeptr b, put_chain i (use_object b ∷ d.chain) h1)
        ]
      ]
]

-- `obj & 0xfffff000`
abbrev pub page_of : ℕ → ℕ
page_of obj = obj - obj % 4096

pub has_page : ℕ → List Bucket → Bool
has_page page [] = false
has_page page (b ∷ chain) = let later = has_page page chain in b.page == page || later

-- The number of the first size, not below `size`, with a bucket on the page.
pub dir_with : ℕ → ℕ → List BucketDir → Option ℕ
dir_with page size [] = none
dir_with page size (d ∷ dirs) =
    let later : Option ℕ = elim (dir_with page size dirs) [ none ↦ none | some i ↦ some (suc i) ] in
    if not (ltb d.size size) && has_page page d.chain then some 0 else later

-- The chain with the object given back, and whether its bucket has left the chain.
pub give_back : ℕ → ℕ → List Bucket → List Bucket × Bool
give_back page obj [] = ([], false)
give_back page obj (b ∷ chain) =
    let refcnt = (b.refcnt + 65535) % 2 ^ 16 in
    let later = give_back page obj chain in
    if not (b.page == page)
    then (b ∷ later.0, later.1)
    else if refcnt == 0
    then (chain, true)
    else (record b { free = obj ∷ b.free; refcnt = refcnt } ∷ chain, false)

pub free_s : ℕ → ℕ → Heap → Result Heap
free_s obj size h = elim (dir_with (page_of obj) size h.bucket_dir) [
  | none ↦ panic
  | some i ↦
      let (chain, left) = give_back (page_of obj) obj (dir_at h i).chain in
      let h1 = put_chain i chain h in
      if not left then ok h1 else elim (free_page (page_of obj) h1.memory) [
        | ok m ↦ ok (record h1 { free_bucket_desc = h1.free_bucket_desc + 1; memory = m })
        | panic ↦ panic
        | killed ↦ killed
      ]
]
