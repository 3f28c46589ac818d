-- ===== src/Fs/Buffer/Tests.antt =====
-- The cache of a kernel with room for three buffers, before and after block 7 of device 0x301 got
-- the first; and a dirty buffer that is written.
use linux_0_11_lab.Base.{
  [], ap, arith, false, if◌then◌else◌, length, refl, replicate, set, true, ℕ, ◌<◌, ◌∷◌, ◌≡◌, ◌⊎◌,
}
use linux_0_11_lab.Base.Int.{pos}
use linux_0_11_lab.Block.{
  Buffer, Request, add_request, fill, free_slot, ll_rw_block, make_request, no_request,
}
use linux_0_11_lab.Fs.Buffer.{
  Cache, add_user, buffer_at, check_chosen, check_found, getblk, got, no_buffer, take_buffer,
  waits_chosen, waits_found, waits_free, writes_out,
}
use linux_0_11_lab.Fs.Buffer.Answers.{getblk_lem}
use linux_0_11_lab.Fs.Buffer.Choose.{AllUsed, Chosen}
use linux_0_11_lab.Fs.Buffer.Find.{IsCache, IsFor}
use linux_0_11_lab.Fs.Buffer.Getblk.{Absent, Safe, Taken, getblk-IsCache, take_buffer_lem}
use linux_0_11_lab.Fs.Buffer.Start.{buffer_init, buffer_init-IsCache, count_buffers}
use linux_0_11_lab.Fs.Buffer.Sync.{System, issue, sleeps_at, sync_dev, sync_loop}
use linux_0_11_lab.Fs.Buffer.Sync.Clean.{Flushed, sync_dev_clean}

abbrev three : Cache
three = buffer_init 0x9f000 0x100000

three_buffers : length three.buffers ≡ 3
unfolding buffer_init count_buffers
three_buffers = refl

three-IsCache : IsCache three
three-IsCache = (buffer_init-IsCache 0x9f000 0x100000).0

block-Absent : Absent 0x301 7 three
block-Absent x f =
    let d = f.same_dev in
    let z = ap (λ b. b.b_dev) ((buffer_init-IsCache 0x9f000 0x100000).1 x) in absurd (omega arith)

abbrev one_held : Cache
one_held = take_buffer 0x301 7 0 three

one_held-Taken : Taken 0x301 7 0 three one_held
one_held-Taken =
    take_buffer_lem 0x301 7 0 three three-IsCache (let n = three_buffers in omega (arith, n))
      (omega arith) block-Absent

getblk-IsCache_example :
    Safe 0x301 7 (getblk 0x301 7 one_held)
    × ((x : ℕ)
        → x < length one_held.buffers
        → Safe 0x301 7 (check_found 0x301 7 x one_held)
          × Safe 0x301 7 (check_chosen 0x301 7 x one_held))
getblk-IsCache_example = getblk-IsCache 0x301 7 one_held one_held-Taken.sound (omega arith)

getblk_lem_example :
    ((x : ℕ) × IsFor 0x301 7 one_held x
      × (getblk 0x301 7 one_held ≡ (
          if (buffer_at one_held x).b_lock
          then waits_found x (add_user x one_held)
          else got x (add_user x one_held))))
    ⊎ (Absent 0x301 7 one_held
        × (getblk 0x301 7 one_held ≡ waits_free one_held)
        × AllUsed one_held.buffers one_held.free_list)
    ⊎ ((x : ℕ) × Absent 0x301 7 one_held
        × Chosen one_held.buffers one_held.free_list x
        × (getblk 0x301 7 one_held ≡ (
            if (buffer_at one_held x).b_lock
            then waits_chosen x one_held
            else if (buffer_at one_held x).b_dirt
            then writes_out x one_held
            else got x (take_buffer 0x301 7 x one_held)))
        × Taken 0x301 7 x one_held (take_buffer 0x301 7 x one_held))
getblk_lem_example = getblk_lem 0x301 7 one_held one_held-Taken.sound (omega arith)

abbrev dirty : Buffer
dirty = record no_buffer { b_dev = 0x301; b_blocknr = 7; b_dirt = true; b_uptodate = true }

abbrev to_write : System
to_write = record {
  cache = record { buffers = dirty ∷ no_buffer ∷ []; hash_table = []; free_list = [] };
  devices = record { request = replicate 32 no_request; current_request = [] ∷ [] ∷ [] ∷ [] ∷ [] };
}

abbrev slot_taken : Request
slot_taken = record { dev = pos 0x301; cmd = 1; errors = 0; start_sector = 14; nr_sectors = 2 }

abbrev all_written : System
all_written = record {
  cache = record {
    buffers = record dirty { b_dirt = false; b_lock = true } ∷ no_buffer ∷ [];
    hash_table = [];
    free_list = [];
  };
  devices = record {
    request = set (replicate 32 no_request) 20 slot_taken;
    current_request = [] ∷ [] ∷ [] ∷ (20 ∷ []) ∷ [];
  };
}

written_then_waits : sync_dev (λ major. true) (λ s. s) 0x301 to_write ≡ sleeps_at 0 all_written
unfolding sync_dev sync_loop issue ll_rw_block make_request fill free_slot add_request
written_then_waits = refl

sync_dev_clean_example : Flushed 2 0x301 (sync_dev (λ major. true) (λ s. s) 0x301 to_write)
sync_dev_clean_example = sync_dev_clean (λ major. true) (λ s. s) 0x301 to_write refl
