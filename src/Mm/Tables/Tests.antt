-- ===== src/Mm/Tables/Tests.antt =====
-- Copy on write of a page that two tasks share. Every page counts two users, but for the last page,
-- which is free; the row at word 0x40000 maps the page at 0x200000, and the page holds its numbers.
use linux_0_11_lab.Base.{
  List, arith, if◌then◌else◌, inr, length-replicate, length-set, refl, replicate, set, ℕ, ◌+◌, ◌<◌,
  ◌==◌, ◌∙◌, ◌≡◌, ◌≢◌, ◌⊎◌,
}
use linux_0_11_lab.Mm.Pages.{Memory, killed, low_mem, ok, total_pages, users}
use linux_0_11_lab.Mm.Pages.Allocate.{IsSized, page_at}
use linux_0_11_lab.Mm.Tables.{frame, un_wp_page}
use linux_0_11_lab.Mm.Tables.Cow.{Private, un_wp_page_lem}

abbrev two : ℕ
two = 2

abbrev twos : List ℕ
twos = replicate total_pages two

abbrev shared : Memory
shared = record {
  memory_map = set twos 3839 0;
  high_memory = 0x1000000;
  ram = λ a. if a == 0x40000 then 0x200005 else a;
}

shared-IsSized : IsSized shared
shared-IsSized = length-set twos 3839 0 ∙ length-replicate total_pages two

two_users : users shared 0x200000 ≡ 2
two_users = refl

un_wp_page_lem_example :
    ((m' : Memory) × (un_wp_page 0x40000 shared ≡ ok m')
      × Private shared 0x40000 m'
      × ((users shared (frame (shared.ram 0x40000)) ≡ 1)
          ⊎ (frame (shared.ram 0x40000) < low_mem)
          ⊎ (users m' (frame (shared.ram 0x40000)) + 1
              ≡ users shared (frame (shared.ram 0x40000)))))
    ⊎ ((un_wp_page 0x40000 shared ≡ killed)
        × ((j : ℕ) → j < total_pages → users shared (page_at j) ≢ 0))
un_wp_page_lem_example =
    un_wp_page_lem 0x40000 shared shared-IsSized (inr (omega (arith, row_users)))
      (inr (omega (arith, two_users))) (omega arith, omega (arith, two_users)) (omega arith)
  where
    row_users : users shared 0x100000 ≡ 2
    row_users = refl
