-- ===== src/Fs/Buffer/Sync.antt =====
-- Reading and writing through the cache: brelse, bread, sync_dev and invalidate_buffers of
-- linux-0.11/fs/buffer.c. Requests go to ll_rw_block of Block.
pub mod Clean
use linux_0_11_lab.Base.{
  Bool, Option, false, if◌then◌else◌, length, none, not, some, suc, zero, ℕ, ◌+◌, ◌==◌,
}
use linux_0_11_lab.Block.{
  Devices, Rw, bad_command, dropped, ll_rw_block, queued, waits_lock, waits_request, write,
}
use linux_0_11_lab.Fs.Buffer.{Cache, buffer_at, drop_user, put_buffer}

pub data Released : Type 0 where
  released : Cache → Released
  waits_release : Released
  freed_free : Released

-- brelse; `freed_free` is its panic.
pub brelse : ℕ → Cache → Released
brelse x s =
    if (buffer_at s x).b_lock
    then waits_release
    else if (buffer_at s x).b_count == 0
    then freed_free
    else released (drop_user x s)

-- The end of bread, when the buffer is unlocked again; no buffer if the block was not read.
pub bread_end : ℕ → Cache → Option ℕ × Cache
bread_end x s = if (buffer_at s x).b_uptodate then (some x, s) else (none, drop_user x s)

-- The state that sync_dev and ll_rw_block share.
pub record System : Type 0 where
  pub cache : Cache
  pub devices : Devices

-- What a call of ll_rw_block makes of the buffer that it is called with; none if it sleeps.
unfoldable pub issue : (ℕ → Bool) → Rw → ℕ → System → Option System
issue has_driver kind x s = elim (ll_rw_block has_driver kind (buffer_at s.cache x) s.devices) [
  | none ↦ some s
  | some made ↦ elim made [
    | dropped bh ↦ some (record s { cache = put_buffer x bh s.cache })
    | queued slot started bh d ↦ some (record { cache = put_buffer x bh s.cache; devices = d })
    | waits_lock ↦ none
    | waits_request bh ↦ none
    | bad_command ↦ none
  ]
]

-- How a loop over the buffers ends: at its end, or asleep at a buffer, with the state before the part
-- of the loop's body that sleeps.
pub data Synced : Type 0 where
  synced : System → Synced
  sleeps_at : ℕ → System → Synced

-- The first and the last loop of sync_dev, over `n` buffers from number `x` on.
unfoldable pub sync_loop : (ℕ → Bool) → ℕ → ℕ → ℕ → System → Synced
sync_loop has_driver dev zero x s = synced s
sync_loop has_driver dev (suc n) x s =
    let bh = buffer_at s.cache x in
    let skipped = sync_loop has_driver dev n (x + 1) s in
    if not (bh.b_dev == dev)
    then skipped
    else if bh.b_lock
    then sleeps_at x s
    else if not bh.b_dirt
    then skipped
    else elim (issue has_driver write x s) [
      | none ↦ sleeps_at x s
      | some s' ↦ sync_loop has_driver dev n (x + 1) s'
    ]

-- `sync_inodes` is what the call of that name in fs/inode.c makes of the state.
unfoldable pub sync_dev : (ℕ → Bool) → (System → System) → ℕ → System → Synced
sync_dev has_driver sync_inodes dev s =
    let nr_buffers = length s.cache.buffers in
    elim (sync_loop has_driver dev nr_buffers 0 s) [
      | sleeps_at x s' ↦ sleeps_at x s'
      | synced s' ↦ sync_loop has_driver dev nr_buffers 0 (sync_inodes s')
    ]

-- The loop of invalidate_buffers; none if it sleeps on a buffer.
pub invalidate_loop : ℕ → ℕ → ℕ → Cache → Option Cache
invalidate_loop dev zero x s = some s
invalidate_loop dev (suc n) x s =
    let bh = buffer_at s x in
    let skipped = invalidate_loop dev n (x + 1) s in
    if not (bh.b_dev == dev)
    then skipped
    else if bh.b_lock
    then none
    else invalidate_loop dev n (x + 1)
        (put_buffer x (record bh { b_uptodate = false; b_dirt = false }) s)

pub invalidate_buffers : ℕ → Cache → Option Cache
invalidate_buffers dev s = invalidate_loop dev (length s.buffers) 0 s
