-- ===== src/Block.antt =====
-- Requests to block devices: kernel/blk_drv/ll_rw_blk.c. The chain of a device's requests is the list
-- of the numbers of its slots, the one that is served first; current_request is its head.
pub mod Elevator
pub mod Slots
mod Tests
use linux_0_11_lab.Base.{
  Bool, List, Option, [], false, get_or, if◌then◌else◌, leb, ltb, none, not, set, some, suc, true,
  zero, ℕ, ◌&&◌, ◌*◌, ◌/◌, ◌==◌, ◌||◌, ◌∷◌,
}
use linux_0_11_lab.Base.Int.{eqb_ℤ, ltb_ℤ, negsuc, pos, ℤ}

-- READ before WRITE; `dev` is negative in a free slot.
pub record Request : Type 0 where
  pub dev : ℤ
  pub cmd : ℕ
  pub errors : ℕ
  pub start_sector : ℕ
  pub nr_sectors : ℕ

pub record Buffer : Type 0 where
  pub b_dev : ℕ
  pub b_blocknr : ℕ
  pub b_count : ℕ
  pub b_lock : Bool
  pub b_dirt : Bool
  pub b_uptodate : Bool

pub record Devices : Type 0 where
  pub request : List Request
  pub current_request : List (List ℕ)

abbrev pub nr_request : ℕ
nr_request = 32

abbrev pub no_request : Request
no_request = record { dev = negsuc 0; cmd = 0; errors = 0; start_sector = 0; nr_sectors = 0 }

abbrev pub is_free : Request → Bool
is_free r = ltb_ℤ r.dev (pos 0)

-- IN_ORDER
abbrev pub in_order : Request → Request → Bool
in_order s1 s2 =
    ltb s1.cmd s2.cmd
    || s1.cmd == s2.cmd
      && (ltb_ℤ s1.dev s2.dev || eqb_ℤ s1.dev s2.dev && ltb s1.start_sector s2.start_sector)

-- The loop of add_request: `req` goes into the chain `tmp`, `rest`.
pub elevator {ℓ} : {A : Type ℓ} → (A → A → Bool) → A → List A → A → List A
elevator before tmp [] req = tmp ∷ req ∷ []
elevator before tmp (behind ∷ rest) req =
    let later = elevator before behind rest req in
    if (before tmp req || not (before tmp behind)) && before req behind
    then tmp ∷ req ∷ behind ∷ rest
    else tmp ∷ later

abbrev pub slot_of : List Request → ℕ → Request
slot_of request i = get_or request i no_request

-- The chain with slot `req`, and whether the driver is started.
unfoldable pub add_request : List Request → List ℕ → ℕ → List ℕ × Bool
add_request request [] req = (req ∷ [], true)
add_request request (tmp ∷ rest) req =
    (elevator (λ a b. in_order (slot_of request a) (slot_of request b)) tmp rest req, false)

-- `while (--req >= request) if (req->dev < 0) break`, with `n` slots.
unfoldable pub free_slot : ℕ → List Request → Option ℕ
free_slot zero request = none
free_slot (suc i) request =
    let lower = free_slot i request in if is_free (slot_of request i) then some i else lower

-- The commands of ll_rw_block.
pub data Rw : Type 0 where
  read : Rw
  write : Rw
  reada : Rw
  writea : Rw
  bad_rw : Rw

abbrev pub is_ahead : Rw → Bool
is_ahead reada = true
is_ahead writea = true
is_ahead _ = false

-- READ is 0 and WRITE is 1.
abbrev pub command_of : Rw → Option ℕ
command_of read = some 0
command_of reada = some 0
command_of write = some 1
command_of writea = some 1
command_of bad_rw = none

-- How make_request ends. `waits_lock` and `waits_request` are its two sleeps: for the buffer, and
-- with the buffer locked for a slot.
pub data Made : Type 0 where
  dropped : Buffer → Made
  waits_lock : Made
  waits_request : Buffer → Made
  bad_command : Made
  queued : ℕ → Bool → Buffer → Devices → Made

abbrev pub locked : Bool → Buffer → Buffer
locked b bh = record bh { b_lock = b }

-- The slots that a command may use.
abbrev pub room_for : ℕ → ℕ
room_for cmd = if cmd == 0 then nr_request else nr_request * 2 / 3

-- The request-info is filled up and added to the queue.
unfoldable pub fill : ℕ → ℕ → ℕ → Buffer → Devices → Made
fill major cmd slot bh s =
    let filled : Request = record {
      dev = pos bh.b_dev;
      cmd = cmd;
      errors = 0;
      start_sector = 2 * bh.b_blocknr;
      nr_sectors = 2;
    } in
    let table = set s.request slot filled in
    let (waiting, started) = add_request table (get_or s.current_request major []) slot in
    queued slot started (record bh { b_lock = true; b_dirt = false })
      (record { request = table; current_request = set s.current_request major waiting })

unfoldable pub make_request : ℕ → Rw → Buffer → Devices → Made
make_request major rw bh s = if is_ahead rw && bh.b_lock then dropped bh else elim (command_of rw) [
  | none ↦ bad_command
  | some cmd ↦
      if bh.b_lock
      then waits_lock
      else if cmd == 1 && not bh.b_dirt || cmd == 0 && bh.b_uptodate
      then dropped (locked false bh)
      else elim (free_slot (room_for cmd) s.request) [
        | none ↦ if is_ahead rw then dropped (locked false bh) else waits_request (locked true bh)
        | some slot ↦ fill major cmd slot bh s
      ]
]

-- Nothing, if the device's driver is not there. `has_driver` says for which majors `request_fn` is
-- not NULL.
unfoldable pub ll_rw_block : (ℕ → Bool) → Rw → Buffer → Devices → Option Made
ll_rw_block has_driver rw bh s =
    let major = bh.b_dev / 256 in
    if leb 7 major || not (has_driver major) then none else some (make_request major rw bh s)

pub block_dev_init : List Request → List Request
block_dev_init [] = []
block_dev_init (r ∷ request) = record r { dev = negsuc 0 } ∷ block_dev_init request
