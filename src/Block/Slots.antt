-- ===== src/Block/Slots.antt =====
-- Which slots of the request table make_request takes.
use linux_0_11_lab.Base.{
  Bool, Bool-cases, List, ap, arith, false, get_or-set_ne, get_or-set_self, if◌then◌else◌, inl, inr,
  leb, length, none, not, refl, some, suc, sym, true, zero, ℕ, ◌&&◌, ◌*◌, ◌/◌, ◌<◌, ◌==◌, ◌||◌, ◌∙◌,
  ◌≡◌, ◌≢◌, ◌⊎◌,
}
use native.Mathlib.Decide.{ℕ_discrete}
use linux_0_11_lab.Block.{
  Buffer, Devices, Made, Request, Rw, command_of, dropped, fill, free_slot, is_ahead, is_free,
  ll_rw_block, locked, make_request, no_request, nr_request, queued, room_for, slot_of, waits_lock,
  waits_request, write,
}

pub free_slot_lem :
    (n : ℕ) (request : List Request)
    → ((i : ℕ) × (free_slot n request ≡ some i) × (i < n) × (is_free (slot_of request i) ≡ true))
      ⊎ ((free_slot n request ≡ none) × ((j : ℕ) → j < n → is_free (slot_of request j) ≡ false))
unfolding free_slot
free_slot_lem zero request = inr (refl, λ j l. absurd (omega arith))
free_slot_lem (suc n) request = elim (Bool-cases (is_free (slot_of request n))) [
  | inl t ↦ inl (n, rw t refl, omega arith, t)
  | inr t ↦ elim (free_slot_lem n request) [
    | inl (i, e, l, f) ↦ inl (i, rw t e, omega arith, f)
    | inr (e, all) ↦ inr (
      rw t e,
      λ j l. elim (ℕ_discrete j n) [ yes same ↦ rw same t | no ne ↦ all j (omega arith) ],
    )
  ]
]

-- The slots that a call of make_request leaves: it takes one free slot below `limit` for the block
-- of the buffer, or changes no slot.
pub data Takes (limit : ℕ) (bh : Buffer) (s : Devices) : Made → Type 0 where
  takes :
      (slot : ℕ) (started : Bool) (bh' : Buffer) (s' : Devices)
      → slot < limit
      → is_free (slot_of s.request slot) ≡ true
      → ((j : ℕ) → j ≢ slot → slot_of s'.request j ≡ slot_of s.request j)
      → (slot_of s'.request slot).start_sector ≡ 2 * bh.b_blocknr
      → bh'.b_lock ≡ true
      → Takes limit bh s (queued slot started bh' s')
  drops : (bh' : Buffer) → Takes limit bh s (dropped bh')
  sleeps_lock : bh.b_lock ≡ true → Takes limit bh s waits_lock
  sleeps_slot :
      (bh' : Buffer)
      → ((j : ℕ) → j < limit → is_free (slot_of s.request j) ≡ false)
      → Takes limit bh s (waits_request bh')

fill-Takes :
    (major cmd slot : ℕ) (bh : Buffer) (s : Devices) (limit : ℕ)
    → slot < limit
    → slot < length s.request
    → is_free (slot_of s.request slot) ≡ true
    → Takes limit bh s (fill major cmd slot bh s)
unfolding fill
fill-Takes major cmd slot bh s limit l known free =
    let self = get_or-set_self s.request slot _ no_request known in
    takes slot _ _ _ l free (λ j ne. get_or-set_ne s.request _ no_request (λ z. ne (sym z)))
      (ap (λ r. r.start_sector) self) refl

-- make_request, for a read or a write, takes at most one slot, which was free: one of all 32 for a
-- read, one of the first 21 for a write. It enters the block's first sector there, leaves the
-- buffer locked, and changes no other slot. It sleeps for the buffer only if that is locked, and
-- for a slot only if none of those is free.
pub make_request_slots :
    (major : ℕ) (rw : Rw) (cmd : ℕ) (bh : Buffer) (s : Devices)
    → length s.request ≡ nr_request
    → command_of rw ≡ some cmd
    → Takes (if cmd == 0 then 32 else 21) bh s (make_request major rw bh s)
unfolding make_request fill
make_request_slots major kind cmd bh s long e = elim (Bool-cases (is_ahead kind && bh.b_lock)) [
  | inl t ↦ rw t (drops bh)
  | inr t ↦ elim (Bool-cases (bh.b_lock)) [
    | inl u ↦
        let q : make_request major kind bh s ≡ waits_lock = rw (t, e, u) refl in
        rw q (sleeps_lock u)
    | inr u ↦ elim (Bool-cases (cmd == 1 && not bh.b_dirt || cmd == 0 && bh.b_uptodate)) [
      | inl v ↦
          let q : make_request major kind bh s ≡ dropped (locked false bh) = rw (t, e, u, v) refl in
          rw q (drops _)
      | inr v ↦ elim (free_slot_lem (room_for cmd) s.request) [
        | inl (slot, f, l, free) ↦
            let known : slot < length s.request = ground (arith, long, l) in
            let q : make_request major kind bh s ≡ fill major cmd slot bh s =
              rw (t, e, u, v, f) refl in
            rw q (fill-Takes major cmd slot bh s _ (ground (arith, l)) known free)
        | inr (f, all) ↦ elim (Bool-cases (is_ahead kind)) [
          | inl w ↦
              let q : make_request major kind bh s ≡ dropped (locked false bh) =
                rw (t, e, u, v, f, w) refl in
              rw q (drops _)
          | inr w ↦
              let q : make_request major kind bh s ≡ waits_request (locked true bh) =
                rw (t, e, u, v, f, w) refl in
              rw q (sleeps_slot _ (λ j l. all j (ground (arith, l))))
        ]
      ]
    ]
  ]
]

fill-queued :
    (major cmd slot : ℕ) (bh : Buffer) (s : Devices)
    → (started : Bool) × (s' : Devices) × (fill major cmd slot bh s
        ≡ queued slot started (record bh { b_lock = true; b_dirt = false }) s')
unfolding fill
fill-queued major cmd slot bh s = (_, _, refl)

-- A write of a dirty buffer that is not locked: it is queued, which marks the buffer clean, or sleeps
-- for a slot, of which it has 21.
pub ll_rw_block-write :
    (has_driver : ℕ → Bool) (bh : Buffer) (s : Devices)
    → (leb 7 (bh.b_dev / 256) || not (has_driver (bh.b_dev / 256))) ≡ false
    → bh.b_lock ≡ false
    → bh.b_dirt ≡ true
    → ((slot : ℕ) × (started : Bool) × (s' : Devices) × (ll_rw_block has_driver write bh s
          ≡ some (queued slot started (record bh { b_lock = true; b_dirt = false }) s')))
      ⊎ ((ll_rw_block has_driver write bh s ≡ some (waits_request (locked true bh)))
          × ((j : ℕ) → j < 21 → is_free (slot_of s.request j) ≡ false))
unfolding ll_rw_block make_request
ll_rw_block-write has_driver bh s driver free dirty = elim (free_slot_lem 21 s.request) [
  | inl (slot, e, _, _) ↦
      let (started, s', q) = fill-queued (bh.b_dev / 256) 1 slot bh s in
      let r : ll_rw_block has_driver write bh s ≡ some (fill (bh.b_dev / 256) 1 slot bh s) =
        simp (driver, free, dirty, e) in
      inl (slot, started, s', r ∙ ap some q)
  | inr (e, all) ↦ inr (simp (driver, free, dirty, e), all)
]
