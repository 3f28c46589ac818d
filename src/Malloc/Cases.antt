-- ===== src/Malloc/Cases.antt =====
-- The two ways in which malloc gives an object.
use linux_0_11_lab.Base.{
  Bool-cases, List, ap, false, get_or, inl, inr, length, none, refl, set, some, ℕ, ◌<◌, ◌∙◌, ◌∷◌,
  ◌≡◌,
}
use linux_0_11_lab.Malloc.{
  Bucket, Heap, dir_at, dir_for, empty_dir, freeptr, has_page, malloc, new_bucket, put_chain,
  take_object, use_object,
}
use linux_0_11_lab.Malloc.Heaps.{IsHeap, changed, objects_in}
use linux_0_11_lab.Malloc.Objects.{first_object}
use linux_0_11_lab.Malloc.Pages.{Grown, fresh}
use linux_0_11_lab.Mm.Pages.{ok, users}
use linux_0_11_lab.Mm.Pages.Allocate.{page_at}

-- A page without a user belongs to no bucket.
pub page_nowhere :
    (h : Heap)
    → IsHeap h
    → (page : ℕ) → users h.memory page ≡ 0
    → (j : ℕ) → has_page page (dir_at h j).chain ≡ false
page_nowhere h valid page free j = elim (Bool-cases (has_page page (dir_at h j).chain)) [
  | inl there ↦ absurd (valid.backed j page there free)
  | inr absent ↦ absent
]

pub malloc_old :
    (len : ℕ) (h : Heap) (i : ℕ)
    → dir_for len h.bucket_dir ≡ some i
    → (a : ℕ) (chain' : List Bucket) → take_object (dir_at h i).chain ≡ some (a, chain')
    → malloc len h ≡ ok (a, put_chain i chain' h)
unfolding malloc
malloc_old len h i e a chain' t = rw (e, malloc, t) refl

pub malloc_new :
    (len : ℕ) (h : Heap)
    → IsHeap h
    → (i : ℕ) (l : i < length h.bucket_dir) → dir_for len h.bucket_dir ≡ some i
    → take_object (dir_at h i).chain ≡ none
    → (n : ℕ) (h2 : Heap)
    → new_bucket (dir_at h i).size h ≡ some (fresh (dir_at h i).size (page_at n), h2)
    → Grown h n h2
    → malloc len h
      ≡ ok (
        page_at n,
        record h2 {
          bucket_dir =
              changed h.bucket_dir i l
                (use_object (fresh (dir_at h i).size (page_at n)) ∷ (dir_at h i).chain);
        },
      )
unfolding malloc
malloc_new len h valid i l e t n h2 q grown =
    let b : Bucket = fresh (dir_at h i).size (page_at n) in
    let first : freeptr b ≡ page_at n =
      first_object (objects_in (dir_at h i).size) (dir_at h i).size (page_at n)
        (valid.sizes i l).some_fit in
    let chain' : List Bucket = use_object b ∷ (dir_at h i).chain in
    let put : put_chain i chain' h2 ≡ record h2 { bucket_dir = changed h.bucket_dir i l chain' } =
      ap
        (λ dirs. record h2 {
          bucket_dir = set dirs i (record (get_or dirs i (empty_dir 0)) { chain = chain' });
        })
        grown.dirs in
    let given : malloc len h ≡ ok (freeptr b, put_chain i chain' h2) = rw (e, malloc, t, q) refl in
    given ∙ (λ z. ok (first z, put z))
