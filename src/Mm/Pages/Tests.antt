-- ===== src/Mm/Pages/Tests.antt =====
-- Physical pages in a memory whose last page is free, and in one of 16 MB.
use linux_0_11_lab.Base.{
  List, ap, arith, get_or, get_or-set_self, length-replicate, length-set, refl, replicate, set,
  some, suc, ℕ, ◌<◌, ◌∙◌, ◌≡◌, ◌≢◌, ◌⊎◌,
}
use linux_0_11_lab.Mm.Pages.{Memory, find_free, get_free_page, total_pages, used, users}
use linux_0_11_lab.Mm.Pages.Allocate.{
  Allocated, IsSized, get_free_page-some, get_free_page_lem, page_at,
}

abbrev last_free : Memory
last_free = record {
  memory_map = set (replicate total_pages used) 3839 0;
  high_memory = 0x1000000;
  ram = λ a. a;
}

last_free-IsSized : IsSized last_free
last_free-IsSized =
    length-set (replicate total_pages used) 3839 0 ∙ length-replicate total_pages used

find_free-top :
    (counts : List ℕ) (n : ℕ) → get_or counts n 1 ≡ 0 → find_free counts (suc n) ≡ some n
unfolding find_free
find_free-top counts n e = rw e refl

last_found : find_free last_free.memory_map total_pages ≡ some 3839
last_found = find_free-top last_free.memory_map 3839 (
    get_or-set_self (replicate total_pages used) 3839 0 1
      (omega (arith, length-replicate total_pages used)))

page_given : (get_free_page last_free).0 ≡ 0xfff000
page_given = ap (λ r. r.0) (get_free_page-some last_free 3839 last_found)

get_free_page_lem_example :
    ((get_free_page last_free ≡ (0, last_free))
      × ((j : ℕ) → j < total_pages → users last_free (page_at j) ≢ 0))
    ⊎ ((i : ℕ) × ((get_free_page last_free).0 ≡ page_at i)
        × Allocated last_free i (get_free_page last_free).1
        × ((j : ℕ) → i < j → j < total_pages → users last_free (page_at j) ≢ 0))
get_free_page_lem_example = get_free_page_lem last_free last_free-IsSized
