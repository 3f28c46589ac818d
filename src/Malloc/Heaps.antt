-- ===== src/Malloc/Heaps.antt =====
-- Sound heaps, and the change of one chain.
use linux_0_11_lab.Base.{
  List, ap, arith, false, get_or, get_or-set_ne, get_or-set_self, length, length-set, set,
  set-get_or, set-set, some, true, ℕ, ◌*◌, ◌/◌, ◌<◌, ◌∙◌, ◌≡◌, ◌≢◌, ◌≤◌,
}
use linux_0_11_lab.Malloc.{Bucket, BucketDir, Heap, dir_at, dir_with, empty_dir, has_page}
use linux_0_11_lab.Malloc.Chains.{IsChain, dir_with_lem}
use linux_0_11_lab.Mm.Pages.{page_size, total_pages, users}
use linux_0_11_lab.Mm.Pages.Allocate.{IsSized, page_at}

-- The number of objects of a size in a page.
abbrev pub objects_in : ℕ → ℕ
objects_in size = page_size / size

-- A size of which a page has room for some objects, and for 256 at most.
pub record IsSize (size : ℕ) : Type 0 where
  pub positive : 1 ≤ size
  pub some_fit : objects_in size ≢ 0
  pub few_fit : objects_in size ≤ 256
  pub fit : objects_in size * size ≤ page_size

-- A sound heap: its sizes are sound, its chains are sound, no two buckets have the same page, the
-- pages of buckets have users, and the pages without users lie below the end of memory.
pub record IsHeap (h : Heap) : Type 0 where
  pub sized : IsSized h.memory
  pub high :
      (j : ℕ) → j < total_pages → users h.memory (page_at j) ≡ 0 → page_at j < h.memory.high_memory
  pub sizes : (i : ℕ) → i < length h.bucket_dir → IsSize (dir_at h i).size
  pub chains : (i : ℕ) → IsChain (objects_in (dir_at h i).size) (dir_at h i).chain
  pub apart :
      (i j p : ℕ)
      → i ≢ j
      → has_page p (dir_at h i).chain ≡ true
      → has_page p (dir_at h j).chain ≡ false
  pub backed : (i p : ℕ) → has_page p (dir_at h i).chain ≡ true → users h.memory p ≢ 0

module _ (dirs : List BucketDir) (i : ℕ) (l : i < length dirs) where
  abbrev pub old : BucketDir
  old = get_or dirs i (empty_dir 0)

  abbrev pub changed : List Bucket → List BucketDir
  changed chain = set dirs i (record old { chain = chain })

  pub changed_here :
      (chain : List Bucket) → get_or (changed chain) i (empty_dir 0) ≡ record old { chain = chain }
  changed_here chain = get_or-set_self dirs i (record old { chain = chain }) (empty_dir 0) l

  pub restored :
      (chain : List Bucket)
      → set
          (changed chain)
          i
          (record (get_or (changed chain) i (empty_dir 0)) { chain = old.chain })
        ≡ dirs
  restored chain =
      ap (λ d. set (changed chain) i (record d { chain = old.chain })) (changed_here chain)
      ∙ set-set dirs i (record old { chain = chain }) old
      ∙ set-get_or dirs i (empty_dir 0)

  pub found_changed :
      (page size : ℕ) (chain : List Bucket)
      → size ≤ old.size
      → has_page page chain ≡ true
      → ((j : ℕ) → i ≢ j → has_page page (get_or dirs j (empty_dir 0)).chain ≡ false)
      → dir_with page size (changed chain) ≡ some i
  found_changed page size chain fits here apart =
      let self = changed_here chain in
      dir_with_lem page size (changed chain) i
        (let n = length-set dirs i (record old { chain = chain }) in omega arith)
        (rw (ap (λ d. d.size) self) fits) (ap (λ d. has_page page d.chain) self ∙ here)
        (λ j lt.
          ap (λ d. has_page page d.chain)
            (get_or-set_ne dirs _ (empty_dir 0) (λ e. absurd (omega arith)))
          ∙ apart j (λ e. absurd (omega arith)))
