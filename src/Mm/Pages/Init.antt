-- ===== src/Mm/Pages/Init.antt =====
-- The counts that memory_init sets up.
use linux_0_11_lab.Base.{
  List, arith, get_or, get_or-set_ne, get_or-set_self, if◌then◌else◌, leb, length, length-replicate,
  length-set, ltb, refl, replicate, set, suc, zero, ℕ, ◌%◌, ◌&&◌, ◌+◌, ◌-◌, ◌/◌, ◌<◌, ◌^◌, ◌≡◌, ◌≤◌,
}
use native.Mathlib.Decide.{ℕ_discrete}
use linux_0_11_lab.Mm.Pages.{clear_counts, low_mem, map_nr, memory_init, total_pages, used}
use linux_0_11_lab.Mm.Pages.Allocate.{page_at}

clear_counts_lem :
    (n i : ℕ) (counts : List ℕ) (j : ℕ)
    → i + n ≤ length counts
    → get_or (clear_counts n i counts) j 1
      ≡ (if leb i j && ltb j (i + n) then 0 else get_or counts j 1)
unfolding clear_counts
clear_counts_lem zero i counts j h = ground arith
clear_counts_lem (suc n) i counts j h =
    let ih = clear_counts_lem n (i + 1) (set counts i 0) j (omega (arith, length-set counts i 0)) in
    elim (ℕ_discrete i j) [
      | yes e ↦
          let here : get_or (set counts i 0) j 1 ≡ 0 =
            rw (← e) (get_or-set_self counts i 0 1 (omega arith)) in
          ground (arith, ih, here)
      | no ne ↦ let away = get_or-set_ne counts 0 1 ne in ground (arith, ih, away)
    ]

get_or-replicate : (n v j d : ℕ) → j < n → get_or (replicate n v) j d ≡ v
get_or-replicate zero v j d h = absurd (omega arith)
get_or-replicate (suc n) v zero d h = refl
get_or-replicate (suc n) v (suc j) d h = get_or-replicate n v j d (omega arith)

-- After memory_init, for a range of whole pages between 1 MB and 16 MB, exactly the pages in the
-- range are free to be allocated, and every other page counts as used 100 times.
pub memory_init_counts :
    (start end j : ℕ) (ram : ℕ → ℕ)
    → low_mem ≤ start
    → start ≤ end
    → end ≤ 2 ^ 24
    → start % 4096 ≡ 0
    → end % 4096 ≡ 0
    → j < total_pages
    → get_or (memory_init start end ram).memory_map j 1
      ≡ (if leb start (page_at j) && ltb (page_at j) end then 0 else used)
unfolding memory_init
memory_init_counts start end j ram a b c d e l =
    let long = length-replicate total_pages used in
    let fit : map_nr start + (end - start) / 4096 ≤ length (replicate total_pages used) =
      omega (arith, long) in
    let z =
      clear_counts_lem ((end - start) / 4096) (map_nr start) (replicate total_pages used) j fit in
    let r = get_or-replicate total_pages used j 1 l in ground (arith, z, r)
