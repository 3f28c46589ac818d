-- ===== src/Mm/Tables.antt =====
-- Page directories and page tables. The page directory starts at address 0, so its entry for a
-- linear address is the word with the number `address >> 22`.
pub mod Cow
mod Tests
use linux_0_11_lab.Base.{
  Bool, bit_and, bit_or, if◌then◌else◌, leb, ltb, not, set, suc, zero, ℕ, ◌%◌, ◌&&◌, ◌*◌, ◌+◌, ◌/◌,
  ◌==◌, ◌^◌, ◌||◌,
}
use linux_0_11_lab.Base.Bits.{complement}
use linux_0_11_lab.Base.Int.{negsuc, pos, ℤ}
use linux_0_11_lab.Mm.Pages.{
  Memory, Result, free_page, get_free_page, killed, low_mem, map_nr, ok, panic, users,
}

abbrev pub is_present : ℕ → Bool
is_present w = w % 2 == 1

-- `0xfffff000 & w`
abbrev pub frame : ℕ → ℕ
frame w = w / 4096 * 4096

abbrev pub poke : ℕ → ℕ → Memory → Memory
poke p v m = record m { ram = λ a. if a == p then v else m.ram a }

-- `memory_map[MAP_NR(addr)] += 1`, and `-= 1`, in a byte.
abbrev pub share_page_of : ℕ → Memory → Memory
share_page_of addr m = record m {
  memory_map = set m.memory_map (map_nr addr) ((users m addr + 1) % 256);
}

abbrev pub leave_page_of : ℕ → Memory → Memory
leave_page_of addr m = record m {
  memory_map = set m.memory_map (map_nr addr) ((users m addr + 255) % 256);
}

-- The word of the page table `table` that maps `address`.
abbrev pub entry_of : ℕ → ℕ → ℕ
entry_of table address = table / 4 + address / 4096 % 1024

-- The rows of the page table at word `p`, with `n` left; each present page is freed.
pub free_table : ℕ → ℕ → Memory → Result Memory
free_table zero p m = ok m
free_table (suc n) p m =
    let freed : Result Memory =
      (if is_present (m.ram p) then free_page (frame (m.ram p)) m else ok m) in
    elim freed [ ok m' ↦ free_table n (p + 1) (poke p 0 m') | panic ↦ panic | killed ↦ killed ]

pub free_dir : ℕ → ℕ → Memory → Result Memory
free_dir zero dir m = ok m
free_dir (suc n) dir m =
    let rest = free_dir n (dir + 1) m in
    if not (is_present (m.ram dir))
    then rest
    else elim (free_table 1024 (frame (m.ram dir) / 4) m) [
      | ok m' ↦ elim (free_page (frame (m'.ram dir)) m') [
        | ok m'' ↦ free_dir n (dir + 1) (poke dir 0 m'')
        | panic ↦ panic
        | killed ↦ killed
      ]
      | panic ↦ panic
      | killed ↦ killed
    ]

-- The number of 4 MB pieces in `size` bytes, in 32 bits.
abbrev pub pieces : ℕ → ℕ
pieces size = (size + 0x3fffff) % 2 ^ 32 / 2 ^ 22

pub free_page_tables : ℕ → ℕ → Memory → Result Memory
free_page_tables from size m =
    if not (from % 2 ^ 22 == 0)
    then panic
    else if from == 0
    then panic
    else free_dir (pieces size) (from / 2 ^ 22) m

-- One row of copy_page_tables: word `q` of the new table becomes the read-only row `p`.
pub copy_entry : ℕ → ℕ → Memory → Memory
copy_entry p q m =
    let this_page = bit_and (m.ram p) (complement 32 2) in
    let m' = poke q this_page m in
    if not (is_present (m.ram p))
    then m
    else if ltb low_mem this_page
    then share_page_of this_page (poke p this_page m')
    else m'

pub copy_table : ℕ → ℕ → ℕ → Memory → Memory
copy_table zero p q m = m
copy_table (suc n) p q m = copy_table n (p + 1) (q + 1) (copy_entry p q m)

-- 0, or -1 when no page is left.
pub copy_dir : ℕ → ℕ → ℕ → ℕ → Memory → Result (ℤ × Memory)
copy_dir rows zero from to m = ok (pos 0, m)
copy_dir rows (suc n) from to m =
    let (table, m1) = get_free_page m in
    let m2 = poke to (bit_or table 7) m1 in
    let following =
      copy_dir rows n (from + 1) (to + 1)
        (copy_table rows (frame (m.ram from) / 4) (table / 4) m2) in
    let skipped = copy_dir rows n (from + 1) (to + 1) m in
    if is_present (m.ram to)
    then panic
    else if not (is_present (m.ram from))
    then skipped
    else if table == 0
    then ok (negsuc 0, m1)
    else following

pub copy_page_tables : ℕ → ℕ → ℕ → Memory → Result (ℤ × Memory)
copy_page_tables from to size m =
    if not (from % 2 ^ 22 == 0) || not (to % 2 ^ 22 == 0)
    then panic
    else copy_dir (if from == 0 then 160 else 1024) (pieces size) (from / 2 ^ 22) (to / 2 ^ 22) m

-- The page, or 0 when no page is left for a table. The two messages change nothing.
pub put_page : ℕ → ℕ → Memory → ℕ × Memory
put_page page address m =
    let dir = address / 2 ^ 22 in
    let (tmp, m1) = get_free_page m in
    let m2 = poke dir (bit_or tmp 7) m1 in
    if is_present (m.ram dir)
    then (page, poke (entry_of (frame (m.ram dir)) address) (bit_or page 7) m)
    else if tmp == 0
    then (0, m1)
    else (page, poke (entry_of tmp address) (bit_or page 7) m2)

pub copy_page : ℕ → ℕ → Memory → Memory
copy_page from to m = record m {
  ram = λ a. if a / 1024 == to / 4096 then m.ram (from / 4 + a % 1024) else m.ram a;
}

-- Gives the row at word `p` a page that can be written.
pub un_wp_page : ℕ → Memory → Result Memory
un_wp_page p m =
    let old_page = frame (m.ram p) in
    let (new_page, m1) = get_free_page m in
    let m2 = if leb low_mem old_page then leave_page_of old_page m1 else m1 in
    let m3 = copy_page old_page new_page (poke p (bit_or new_page 7) m2) in
    if leb low_mem old_page && users m old_page == 1
    then ok (poke p (bit_or (m.ram p) 2) m)
    else if new_page == 0
    then killed
    else ok m3

pub do_wp_page : ℕ → Memory → Result Memory
do_wp_page address m = un_wp_page (entry_of (frame (m.ram (address / 2 ^ 22 % 1024))) address) m

pub write_verify : ℕ → Memory → Result Memory
write_verify address m =
    let dir = m.ram (address / 2 ^ 22) in
    let p = entry_of (frame dir) address in
    if not (is_present dir) then ok m else if m.ram p % 4 == 1 then un_wp_page p m else ok m

pub get_empty_page : ℕ → Memory → Result Memory
get_empty_page address m =
    let (tmp, m1) = get_free_page m in
    let (put, m2) = put_page tmp address m1 in
    if tmp == 0
    then killed
    else if put == 0
    then elim (free_page tmp m2) [ ok _ ↦ killed | panic ↦ panic | killed ↦ killed ]
    else ok m2

-- Shares the page of task `p` at `address` with the current task: 1 if it did. `from_code` and
-- `to_code` are the two tasks' start_code.
pub try_to_share : ℕ → ℕ → ℕ → Memory → Result (ℕ × Memory)
try_to_share address from_code to_code m =
    let from_dir = address / 2 ^ 22 % 1024 + from_code / 2 ^ 22 % 1024 in
    let to_dir = address / 2 ^ 22 % 1024 + to_code / 2 ^ 22 % 1024 in
    let from_page = entry_of (frame (m.ram from_dir)) address in
    let phys_addr = frame (m.ram from_page) in
    let (fresh, m1) = get_free_page m in
    let taken : Memory =
      (if is_present (m.ram to_dir) then m else poke to_dir (bit_or fresh 7) m1) in
    let to_page =
      entry_of (if is_present (m.ram to_dir) then frame (m.ram to_dir) else fresh) address in
    let m2 = poke from_page (bit_and (taken.ram from_page) (complement 32 2)) taken in
    let m3 = poke to_page (m2.ram from_page) m2 in
    if not (is_present (m.ram from_dir))
    then ok (0, m)
    else if not (bit_and (m.ram from_page) 0x41 == 1)
    then ok (0, m)
    else if leb m.high_memory phys_addr || ltb phys_addr low_mem
    then ok (0, m)
    else if not (is_present (m.ram to_dir)) && fresh == 0
    then killed
    else if is_present (taken.ram to_page)
    then panic
    else ok (1, share_page_of phys_addr m3)
