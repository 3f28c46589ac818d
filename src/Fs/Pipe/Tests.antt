-- ===== src/Fs/Pipe/Tests.antt =====
-- A pipe whose bytes go round the end of the page.
use linux_0_11_lab.Base.{[], arith, length-replicate, replicate, ℕ, ◌∷◌}
use linux_0_11_lab.Fs.Pipe.{Pipe, page_size, read_passes, write_passes}
use linux_0_11_lab.Fs.Pipe.Queue.{Given, IsPipe, Taken, read_passes_lem, write_passes_lem}

abbrev byte : ℕ
byte = 65

abbrev round : Pipe
round = record { head = 2; tail = 4094; page = replicate page_size byte }

round-IsPipe : IsPipe round
round-IsPipe = record {
  head_in = omega arith;
  tail_in = omega arith;
  whole_page = length-replicate page_size byte;
}

read_passes_lem_example : Taken 6 round (read_passes 6 6 round)
read_passes_lem_example = read_passes_lem 6 6 round round-IsPipe (omega arith)

write_passes_lem_example : Given (1 ∷ 2 ∷ 3 ∷ []) round (write_passes 3 (1 ∷ 2 ∷ 3 ∷ []) round)
write_passes_lem_example = write_passes_lem 3 (1 ∷ 2 ∷ 3 ∷ []) round round-IsPipe (omega arith)
