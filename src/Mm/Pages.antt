-- ===== src/Mm/Pages.antt =====
-- Physical pages: get_free_page, free_page and memory_init. Memory is a function from the number of
-- a 32-bit word (an address divided by 4) to the word; `memory_map` counts the users of each page
-- above 1 MB, in bytes that wrap.
pub mod Allocate
pub mod Init
mod Tests
use linux_0_11_lab.Base.{
  List, Option, get_or, if◌then◌else◌, leb, ltb, none, replicate, set, some, suc, zero, ℕ, ◌*◌, ◌+◌,
  ◌-◌, ◌/◌, ◌==◌,
}

pub record Memory : Type 0 where
  pub memory_map : List ℕ
  pub high_memory : ℕ
  pub ram : ℕ → ℕ

abbrev pub low_mem : ℕ
low_mem = 0x100000

abbrev pub total_pages : ℕ
total_pages = 3840

abbrev pub page_size : ℕ
page_size = 4096

abbrev pub map_nr : ℕ → ℕ
map_nr addr = (addr - low_mem) / 4096

-- The number of users of the page at an address.
abbrev pub users : Memory → ℕ → ℕ
users m addr = get_or m.memory_map (map_nr addr) 0

abbrev pub used : ℕ
used = 100

-- What a function leaves: `panic` stops the kernel, and `killed` is oom(), which ends the task.
pub data Result {ℓ} (A : Type ℓ) : Type ℓ where
  ok : A → Result A
  panic : Result A
  killed : Result A

-- The last page with the count 0, of the first `n`.
pub find_free : List ℕ → ℕ → Option ℕ
find_free counts zero = none
find_free counts (suc i) = if get_or counts i 1 == 0 then some i else find_free counts i

pub clear_page : ℕ → (ℕ → ℕ) → ℕ → ℕ
clear_page page ram a = if a / 1024 == page / 4096 then 0 else ram a

-- The address of the page, 0 if there is none.
pub get_free_page : Memory → ℕ × Memory
get_free_page m = elim (find_free m.memory_map total_pages) [
  | none ↦ (0, m)
  | some i ↦ (
    low_mem + i * page_size,
    record m {
      memory_map = set m.memory_map i 1;
      ram = clear_page (low_mem + i * page_size) m.ram;
    },
  )
]

pub free_page : ℕ → Memory → Result Memory
free_page addr m =
    if ltb addr low_mem
    then ok m
    else if leb m.high_memory addr
    then panic
    else if users m addr == 0
    then panic
    else ok (record m { memory_map = set m.memory_map (map_nr addr) (users m addr - 1) })

-- `n` pages from number `i` on become free.
pub clear_counts : ℕ → ℕ → List ℕ → List ℕ
clear_counts zero i counts = counts
clear_counts (suc n) i counts = clear_counts n (i + 1) (set counts i 0)

-- `memory_end` is not below `memory_start`.
pub memory_init : ℕ → ℕ → (ℕ → ℕ) → Memory
memory_init memory_start memory_end ram = record {
  memory_map =
      clear_counts ((memory_end - memory_start) / 4096) (map_nr memory_start)
        (replicate total_pages used);
  high_memory = memory_end;
  ram = ram;
}
