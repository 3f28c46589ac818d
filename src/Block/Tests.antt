-- ===== src/Block/Tests.antt =====
-- A disk with two requests, and a third buffer to write.
use linux_0_11_lab.Base.{List, [], false, inl, inr, refl, replicate, true, ℕ, ◌++◌, ◌∷◌, ◌≡◌}
use linux_0_11_lab.Base.Int.{pos}
use linux_0_11_lab.Block.{Buffer, Devices, Request, add_request, elevator, no_request}
use linux_0_11_lab.Block.Elevator.{OneSweep, add_request-OneSweep, slots_in_order}

abbrev request_at : ℕ → ℕ → Request
request_at c sector = record {
  dev = pos 0x301;
  cmd = c;
  errors = 0;
  start_sector = sector;
  nr_sectors = 2;
}

abbrev slots : List Request
slots = request_at 0 10 ∷ request_at 0 4 ∷ request_at 0 20 ∷ replicate 29 no_request

abbrev disk : Devices
disk = record { request = slots; current_request = [] ∷ [] ∷ [] ∷ (0 ∷ 1 ∷ []) ∷ [] }

abbrev buffer : Buffer
buffer = record {
  b_dev = 0x301;
  b_blocknr = 7;
  b_count = 1;
  b_lock = false;
  b_dirt = true;
  b_uptodate = true;
}

-- Sector 20 is served on the way up, before the disk goes back to sector 4.
sweeps : add_request slots (0 ∷ 1 ∷ []) 2 ≡ (0 ∷ 1 ∷ 2 ∷ [], false)
unfolding add_request elevator
sweeps = refl

add_request-OneSweep_example :
    (pre post : List ℕ) × (1 ∷ [] ≡ pre ++ post)
    × (add_request slots (0 ∷ 1 ∷ []) 2 ≡ (0 ∷ (pre ++ (2 ∷ post)), false))
    × OneSweep (slots_in_order slots) 0 (pre ++ (2 ∷ post))
add_request-OneSweep_example = add_request-OneSweep slots 0 (1 ∷ []) 2 (inr tt) (inl refl, tt)
