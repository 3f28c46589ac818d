-- ===== src/Fs/Buffer.antt =====
-- The buffer cache of linux-0.11/fs/buffer.c: its two kinds of queue, and getblk. A buffer_head is
-- known by its number from start_buffer on. A hash queue is the list of its buffers from its head on,
-- and the circular list of free buffers is the list from `free_list` on; `b_data` is not kept.
-- Where the code can sleep, a call ends with a result that says for what, and the code behind the
-- sleep is a function of its own, which may start in another state.
pub mod Queues
pub mod Find
pub mod Take
pub mod Move
pub mod Choose
pub mod Getblk
pub mod Answers
pub mod Start
pub mod Sync
mod Tests
use linux_0_11_lab.Base.{
  Bool, List, Option, [], bit_xor, false, get_or, if◌then◌else◌, ltb, none, not, set, some, true, ℕ,
  ◌%◌, ◌&&◌, ◌++◌, ◌+◌, ◌==◌, ◌∷◌,
}
use linux_0_11_lab.Block.{Buffer}

pub record Cache : Type 0 where
  pub buffers : List Buffer
  pub hash_table : List (List ℕ)
  pub free_list : List ℕ

abbrev pub nr_hash : ℕ
nr_hash = 307

abbrev pub no_buffer : Buffer
no_buffer = record {
  b_dev = 0;
  b_blocknr = 0;
  b_count = 0;
  b_lock = false;
  b_dirt = false;
  b_uptodate = false;
}

abbrev pub buffer_at : Cache → ℕ → Buffer
buffer_at s x = get_or s.buffers x no_buffer

abbrev pub put_buffer : ℕ → Buffer → Cache → Cache
put_buffer x bh s = record s { buffers = set s.buffers x bh }

-- _hashfn
pub hashfn : ℕ → ℕ → ℕ
hashfn dev block = bit_xor dev block % nr_hash

-- The hash queue of a block.
abbrev pub queue_of : Cache → ℕ → ℕ → List ℕ
queue_of s dev block = get_or s.hash_table (hashfn dev block) []

abbrev pub is_for : ℕ → ℕ → Buffer → Bool
is_for dev block bh = bh.b_dev == dev && bh.b_blocknr == block

-- Without the first element that is `x`.
pub erase : ℕ → List ℕ → List ℕ
erase x [] = []
erase x (y ∷ ys) = let rest = erase x ys in if x == y then ys else y ∷ rest

pub remove_from_queues : ℕ → Cache → Cache
remove_from_queues x s =
    let bh = buffer_at s x in
    record s {
      hash_table =
          set s.hash_table (hashfn bh.b_dev bh.b_blocknr)
            (erase x (queue_of s bh.b_dev bh.b_blocknr));
      free_list = erase x s.free_list;
    }

pub insert_into_queues : ℕ → Cache → Cache
insert_into_queues x s =
    let bh = buffer_at s x in
    record s {
      hash_table =
          if bh.b_dev == 0
          then s.hash_table
          else set s.hash_table (hashfn bh.b_dev bh.b_blocknr)
              (x ∷ queue_of s bh.b_dev bh.b_blocknr);
      free_list = s.free_list ++ (x ∷ []);
    }

-- The first of a hash queue that holds the block.
pub find_in : ℕ → ℕ → List Buffer → List ℕ → Option ℕ
find_in dev block buffers [] = none
find_in dev block buffers (x ∷ queue) =
    let rest = find_in dev block buffers queue in
    if is_for dev block (get_or buffers x no_buffer) then some x else rest

pub find_buffer : ℕ → ℕ → Cache → Option ℕ
find_buffer dev block s = find_in dev block s.buffers (queue_of s dev block)

-- BADNESS
abbrev pub badness : Buffer → ℕ
badness bh = (if bh.b_dirt then 2 else 0) + (if bh.b_lock then 1 else 0)

-- Whether the loop over the free list takes `tmp` in place of what it has.
pub is_better : List Buffer → Buffer → Option ℕ → Bool
is_better buffers tmp none = true
is_better buffers tmp (some x) = ltb (badness tmp) (badness (get_or buffers x no_buffer))

-- The loop of getblk over the free list.
pub choose : List Buffer → List ℕ → Option ℕ → Option ℕ
choose buffers [] best = best
choose buffers (x ∷ free) best =
    let tmp = get_or buffers x no_buffer in
    let takes = tmp.b_count == 0 && is_better buffers tmp best in
    let rest = choose buffers free (if takes then some x else best) in
    if takes && badness tmp == 0 then some x else rest

-- How a call, or a part of one up to the next sleep, ends: with a buffer; asleep on the lock of the
-- buffer that was found, or of the one that was chosen; about to write the device of a chosen one;
-- asleep for a free buffer; or with a jump to the beginning.
pub data Got : Type 0 where
  got : ℕ → Cache → Got
  waits_found : ℕ → Cache → Got
  waits_chosen : ℕ → Cache → Got
  writes_out : ℕ → Cache → Got
  waits_free : Cache → Got
  again : Cache → Got

abbrev pub add_user : ℕ → Cache → Cache
add_user x s =
    let bh = buffer_at s x in put_buffer x (record bh { b_count = (bh.b_count + 1) % 256 }) s

abbrev pub drop_user : ℕ → Cache → Cache
drop_user x s =
    let bh = buffer_at s x in put_buffer x (record bh { b_count = (bh.b_count + 255) % 256 }) s

-- get_from_hash_table behind wait_on_buffer.
pub check_found : ℕ → ℕ → ℕ → Cache → Got
check_found dev block x s =
    if (buffer_at s x).b_lock
    then waits_found x s
    else if is_for dev block (buffer_at s x)
    then got x s
    else again (drop_user x s)

-- The end of getblk: the buffer becomes the block's.
pub take_buffer : ℕ → ℕ → ℕ → Cache → Cache
take_buffer dev block x s =
    let cleaned = record (buffer_at s x) { b_count = 1; b_dirt = false; b_uptodate = false } in
    let s1 = remove_from_queues x (put_buffer x cleaned s) in
    insert_into_queues x
      (put_buffer x (record (buffer_at s1 x) { b_dev = dev; b_blocknr = block }) s1)

-- getblk behind the loop over the free list, and behind each sleep on the buffer that was chosen.
pub check_chosen : ℕ → ℕ → ℕ → Cache → Got
check_chosen dev block x s =
    let bh = buffer_at s x in
    if bh.b_lock
    then waits_chosen x s
    else if not (bh.b_count == 0)
    then again s
    else if bh.b_dirt
    then writes_out x s
    else elim (find_buffer dev block s) [
      | some _ ↦ again s
      | none ↦ got x (take_buffer dev block x s)
    ]

pub getblk : ℕ → ℕ → Cache → Got
getblk dev block s = elim (find_buffer dev block s) [
  | some x ↦ check_found dev block x (add_user x s)
  | none ↦ elim (choose s.buffers s.free_list none) [
    | none ↦ waits_free s
    | some x ↦ check_chosen dev block x s
  ]
]
