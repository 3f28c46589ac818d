-- ===== src/Malloc/Trip.antt =====
-- free_s gives back what malloc took.
use linux_0_11_lab.Base.{
  List, ap, arith, false, inl, inr, length, none, refl, some, true, ℕ, ◌+◌, ◌<◌, ◌==◌, ◌∙◌, ◌∷◌,
  ◌≡◌, ◌≢◌, ◌≤◌, ◌⊎◌,
}
use linux_0_11_lab.Malloc.{
  Bucket, Heap, dir_at, dir_for, dir_with, free_s, give_back, has_page, malloc, new_bucket, page_of,
  put_chain, take_object, use_object,
}
use linux_0_11_lab.Malloc.Cases.{malloc_new, malloc_old, page_nowhere}
use linux_0_11_lab.Malloc.Chains.{TakenFrom, dir_for_lem, take_object_lem}
use linux_0_11_lab.Malloc.Heaps.{IsHeap, changed, changed_here, found_changed, objects_in, restored}
use linux_0_11_lab.Malloc.Pages.{Exhausted, Grown, fresh, new_bucket_lem}
use linux_0_11_lab.Mm.Pages.{Memory, free_page, ok, panic}
use linux_0_11_lab.Mm.Pages.Allocate.{page_at}

free_s_stays :
    (a size : ℕ) (h : Heap) (i : ℕ) (chain : List Bucket)
    → dir_with (page_of a) size h.bucket_dir ≡ some i
    → give_back (page_of a) a (dir_at h i).chain ≡ (chain, false)
    → free_s a size h ≡ ok (put_chain i chain h)
unfolding free_s
free_s_stays a size h i chain f b = rw (f, free_s, b) refl

free_s_leaves :
    (a size : ℕ) (h : Heap) (i : ℕ) (chain : List Bucket) (m : Memory)
    → dir_with (page_of a) size h.bucket_dir ≡ some i
    → give_back (page_of a) a (dir_at h i).chain ≡ (chain, true)
    → free_page (page_of a) h.memory ≡ ok m
    → free_s a size h
      ≡ ok (record (put_chain i chain h) { free_bucket_desc = h.free_bucket_desc + 1; memory = m })
unfolding free_s
free_s_leaves a size h i chain m f b g =
    let same_chain : (give_back (page_of a) a (dir_at h i).chain).0 ≡ chain = λ z. (b z).0 in
    let left : (give_back (page_of a) a (dir_at h i).chain).1 ≡ true = λ z. (b z).1 in
    rw (f, free_s, left, g)
      (λ z. ok (record (put_chain i (same_chain z) h) {
        free_bucket_desc = h.free_bucket_desc + 1;
        memory = m;
      }))

-- What the round trip leaves of `h`.
pub record Restored (h h'' : Heap) : Type 0 where
  pub dirs : h''.bucket_dir ≡ h.bucket_dir
  pub pages :
      h.free_bucket_desc ≢ 0
      → (h''.free_bucket_desc ≡ h.free_bucket_desc) × (h''.memory.memory_map ≡ h.memory.memory_map)

-- An object of a bucket that was there.
from_chain :
    (len size : ℕ) (h : Heap)
    → IsHeap h
    → size ≤ len
    → (i : ℕ) → i < length h.bucket_dir
    → dir_for len h.bucket_dir ≡ some i
    → len ≤ (dir_at h i).size
    → (a : ℕ) (chain' : List Bucket) → take_object (dir_at h i).chain ≡ some (a, chain')
    → TakenFrom (objects_in (dir_at h i).size) (dir_at h i).chain a chain'
    → (malloc len h ≡ ok (a, put_chain i chain' h))
      × ((h'' : Heap) × (free_s a size (put_chain i chain' h) ≡ ok h'') × Restored h h'')
from_chain len size h valid le i l e fits a chain' t k =
    let f : dir_with (page_of a) size (put_chain i chain' h).bucket_dir ≡ some i =
      found_changed h.bucket_dir i l (page_of a) size chain' (omega arith)
        (k.pages (page_of a) ∙ k.here) (λ j ne. valid.apart i j (page_of a) ne k.here) in
    let c = changed_here h.bucket_dir i l chain' in
    let b : give_back (page_of a) a (dir_at (put_chain i chain' h) i).chain
        ≡ ((dir_at h i).chain, false) =
      ap (λ d. give_back (page_of a) a d.chain) c ∙ k.back in
    (
      malloc_old len h i e a chain' t,
      (
        put_chain i (dir_at h i).chain (put_chain i chain' h),
        free_s_stays a size (put_chain i chain' h) i (dir_at h i).chain f b,
        record { dirs = restored h.bucket_dir i l chain'; pages = λ nz. (refl, refl) },
      ),
    )

-- The object of a new bucket.
from_page :
    (len size : ℕ) (h : Heap)
    → IsHeap h
    → size ≤ len
    → (i : ℕ) → i < length h.bucket_dir
    → dir_for len h.bucket_dir ≡ some i
    → len ≤ (dir_at h i).size
    → take_object (dir_at h i).chain ≡ none
    → (n : ℕ) (h2 : Heap)
    → new_bucket (dir_at h i).size h ≡ some (fresh (dir_at h i).size (page_at n), h2)
    → Grown h n h2
    → (h' : Heap) × (malloc len h ≡ ok (page_at n, h'))
      × ((h'' : Heap) × (free_s (page_at n) size h' ≡ ok h'') × Restored h h'')
unfolding has_page give_back
from_page len size h valid le i l e fits t n h2 q grown =
    let page : ℕ = page_at n in
    let b : Bucket = fresh (dir_at h i).size page in
    let chain' : List Bucket = use_object b ∷ (dir_at h i).chain in
    let h' : Heap = record h2 { bucket_dir = changed h.bucket_dir i l chain' } in
    let on_page : page_of page ≡ page = omega arith in
    let self : (page == page) ≡ true = ground arith in
    let (m, freed, same) = grown.undone in
    let nowhere = page_nowhere h valid page grown.was_free in
    let f : dir_with (page_of page) size h'.bucket_dir ≡ some i = rw on_page (
      found_changed h.bucket_dir i l page size chain' (omega arith) (rw self refl)
        (λ j ne. nowhere j)) in
    let back : give_back (page_of page) page (dir_at h' i).chain ≡ ((dir_at h i).chain, true) =
      ap (λ d. give_back (page_of page) page d.chain) (changed_here h.bucket_dir i l chain')
      ∙ rw (on_page, self) refl in
    (
      h',
      malloc_new len h valid i l e t n h2 q grown,
      (
        _,
        free_s_leaves page size h' i (dir_at h i).chain m f back (rw on_page freed),
        record { dirs = restored h.bucket_dir i l chain'; pages = same },
      ),
    )

-- In a sound heap malloc gives an object, unless the length is above all sizes, or there is no page
-- for a new bucket and its descriptor. free_s of the object, with its length or with any smaller one,
-- such as the 0 of free, does not fail: it makes all chains what they were before malloc, and, unless
-- malloc had to make new descriptors, also the number of descriptors and the users of all pages.
pub free_s-malloc :
    (len size : ℕ) (h : Heap)
    → IsHeap h
    → size ≤ len
    → ((a : ℕ) × (h' : Heap) × (h'' : Heap) × (malloc len h ≡ ok (a, h'))
        × (free_s a size h' ≡ ok h'')
        × Restored h h'')
      ⊎ ((malloc len h ≡ panic)
          × (((i : ℕ) → i < length h.bucket_dir → (dir_at h i).size < len) ⊎ Exhausted h))
unfolding malloc
free_s-malloc len size h valid le = elim (dir_for_lem len h.bucket_dir) [
  | inr (e, all) ↦ inr (rw (e, malloc) refl, inl all)
  | inl (i, e, l, fits) ↦
      elim (take_object_lem (objects_in (dir_at h i).size) (dir_at h i).chain
        (valid.sizes i l).few_fit (valid.chains i)) [
          | inl (a, chain', t, k) ↦
              let (given, (h'', freed, r)) =
                from_chain len size h valid le i l e fits a chain' t k in
              inl (a, put_chain i chain' h, h'', given, freed, r)
          | inr t ↦ elim (new_bucket_lem (dir_at h i).size h valid.sized valid.high) [
            | inl (n, h2, q, grown) ↦
                let (h', given, (h'', freed, r)) =
                  from_page len size h valid le i l e fits t n h2 q grown in
                inl (page_at n, h', h'', given, freed, r)
            | inr (q, poor) ↦ inr (rw (e, malloc, t, q) refl, inr poor)
          ]
        ]
]
