-- ===== src/Malloc/Tests.antt =====
-- The allocator at concrete inputs.
use linux_0_11_lab.Base.{
  List, [], ap, arith, false, get_or, length, length-replicate, map, refl, replicate, suc, sym,
  zero, ℕ, ◌+◌, ◌<◌, ◌∷◌, ◌≡◌, ◌≢◌, ◌≤◌, ◌⊎◌,
}
use mathlib.Core.Path.{subst}
use linux_0_11_lab.Malloc.{Heap, bucket_sizes, dir_at, empty_dir, free_s, has_page, malloc}
use linux_0_11_lab.Malloc.Heaps.{IsHeap, IsSize}
use linux_0_11_lab.Malloc.Pages.{Exhausted}
use linux_0_11_lab.Malloc.Sound.{Handed, Placed, malloc-IsHeap}
use linux_0_11_lab.Malloc.Spaced.{AtPlace, IsSpaced, IsSpacedChain}
use linux_0_11_lab.Malloc.Trip.{Restored, free_s-malloc}
use linux_0_11_lab.Mm.Pages.{ok, panic}

-- All pages are free, and nothing is allocated.
abbrev empty_heap : Heap
empty_heap = record {
  bucket_dir = map empty_dir bucket_sizes;
  free_bucket_desc = 0;
  memory = record { memory_map = replicate 3840 0; high_memory = 0x1000000; ram = λ a. 0 };
}

no_bucket : (i : ℕ) → (dir_at empty_heap i).chain ≡ []
no_bucket i = empty_chains bucket_sizes i
  where
    empty_chains :
        (sizes : List ℕ) (i : ℕ) → (get_or (map empty_dir sizes) i (empty_dir 0)).chain ≡ []
    empty_chains [] i = refl
    empty_chains (s ∷ sizes) zero = refl
    empty_chains (s ∷ sizes) (suc i) = empty_chains sizes i

none_on_page : (i p : ℕ) → has_page p (dir_at empty_heap i).chain ≡ false
unfolding has_page
none_on_page i p = ap (has_page p) (no_bucket i)

AreSizes : List ℕ → Type 0
AreSizes [] = Unit
AreSizes (s ∷ sizes) = IsSize s × AreSizes sizes

bucket_sizes-AreSizes : AreSizes bucket_sizes
unfolding AreSizes
bucket_sizes-AreSizes = (
  record {
    positive = omega arith;
    some_fit = omega arith;
    few_fit = omega arith;
    fit = omega arith;
  },
  (
    record {
      positive = omega arith;
      some_fit = omega arith;
      few_fit = omega arith;
      fit = omega arith;
    },
    (
      record {
        positive = omega arith;
        some_fit = omega arith;
        few_fit = omega arith;
        fit = omega arith;
      },
      (
        record {
          positive = omega arith;
          some_fit = omega arith;
          few_fit = omega arith;
          fit = omega arith;
        },
        (
          record {
            positive = omega arith;
            some_fit = omega arith;
            few_fit = omega arith;
            fit = omega arith;
          },
          (
            record {
              positive = omega arith;
              some_fit = omega arith;
              few_fit = omega arith;
              fit = omega arith;
            },
            (
              record {
                positive = omega arith;
                some_fit = omega arith;
                few_fit = omega arith;
                fit = omega arith;
              },
              (
                record {
                  positive = omega arith;
                  some_fit = omega arith;
                  few_fit = omega arith;
                  fit = omega arith;
                },
                (
                  record {
                    positive = omega arith;
                    some_fit = omega arith;
                    few_fit = omega arith;
                    fit = omega arith;
                  },
                  tt,
                ),
              ),
            ),
          ),
        ),
      ),
    ),
  ),
)

dir_sizes :
    (sizes : List ℕ)
    → AreSizes sizes
    → (i : ℕ) → i < length (map empty_dir sizes)
    → IsSize (get_or (map empty_dir sizes) i (empty_dir 0)).size
unfolding AreSizes
dir_sizes [] all i l = absurd (omega arith)
dir_sizes (s ∷ sizes) all zero l = all.0
dir_sizes (s ∷ sizes) all (suc i) l = dir_sizes sizes all.1 i (omega arith)

empty_heap-IsHeap : IsHeap empty_heap
empty_heap-IsHeap = record {
  sized = length-replicate {A = ℕ} 3840 0;
  high = λ j l z. omega arith;
  sizes = dir_sizes bucket_sizes bucket_sizes-AreSizes;
  chains = λ i. rw (no_bucket i) tt;
  apart = λ i j p ne h. none_on_page j p;
  backed = λ i p h. let n = none_on_page i p in absurd (ground (arith, h, n));
}

free_s-malloc_example :
    ((a : ℕ) × (h' : Heap) × (h'' : Heap) × (malloc 100 empty_heap ≡ ok (a, h'))
      × (free_s a 100 h' ≡ ok h'')
      × Restored empty_heap h'')
    ⊎ ((malloc 100 empty_heap ≡ panic)
        × (((i : ℕ) → i < length empty_heap.bucket_dir → (dir_at empty_heap i).size < 100)
            ⊎ Exhausted empty_heap))
free_s-malloc_example = free_s-malloc 100 100 empty_heap empty_heap-IsHeap (omega arith)

empty_heap-IsSpaced : IsSpaced empty_heap
empty_heap-IsSpaced i =
    let e : IsSpacedChain (dir_at empty_heap i).size [] = tt in
    subst (IsSpacedChain (dir_at empty_heap i).size) (sym (no_bucket i)) e

malloc-IsHeap_example :
    ((a : ℕ) × (h' : Heap) × (malloc 100 empty_heap ≡ ok (a, h'))
      × Handed empty_heap a h'
      × ((p : Placed 100 a h') × ((c : ℕ)
            → AtPlace (dir_at h' p.dir).size c
            → c ≢ a
            → (c + (dir_at h' p.dir).size ≤ a) ⊎ (a + (dir_at h' p.dir).size ≤ c))))
    ⊎ ((malloc 100 empty_heap ≡ panic)
        × (((i : ℕ) → i < length empty_heap.bucket_dir → (dir_at empty_heap i).size < 100)
            ⊎ Exhausted empty_heap))
malloc-IsHeap_example = malloc-IsHeap 100 empty_heap empty_heap-IsHeap empty_heap-IsSpaced
