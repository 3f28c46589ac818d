-- ===== src/Kernel/Fork/Memory/Tests.antt =====
-- An area of four bytes that begins at the end of a page.
use linux_0_11_lab.Base.{[], arith, some, ◌%◌, ◌*◌, ◌+◌, ◌-◌, ◌/◌, ◌^◌, ◌≡◌}
use linux_0_11_lab.Base.Int.{pos}
use linux_0_11_lab.Kernel.Fork.Memory.{verify_area}
use linux_0_11_lab.Kernel.Fork.Memory.Areas.{verify_area_pages, write_pages}
use linux_0_11_lab.Mm.Pages.{Memory}

abbrev no_pages : Memory
no_pages = record { memory_map = []; high_memory = 0x1000000; ram = λ a. 0 }

verify_area_pages_example :
    verify_area 0x1ffe (pos 4) 0x4000000 no_pages
    ≡ some (
        write_pages
          ((0x1ffe + 4 - 1) / 4096 - 0x1ffe / 4096 + 1)
          ((0x1ffe / 4096 * 4096 + 0x4000000) % 2 ^ 32)
          no_pages)
verify_area_pages_example =
    verify_area_pages 0x1ffe 4 0x4000000 no_pages (omega arith) (omega arith)
