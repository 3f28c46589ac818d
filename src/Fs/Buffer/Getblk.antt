-- ===== src/Fs/Buffer/Getblk.antt =====
-- What getblk answers, and that it keeps the cache sound whatever happens while it sleeps.
use linux_0_11_lab.Base.{
  Bool-cases, [], ap, arith, false, get_or-set_ne, get_or-set_self, inl, inr, length, length-set,
  refl, sym, true, ℕ, ◌%◌, ◌++◌, ◌+◌, ◌<◌, ◌==◌, ◌∙◌, ◌∷◌, ◌≡◌, ◌≢◌,
}
use native.Mathlib.Decide.{ℕ_discrete}
use linux_0_11_lab.Block.{Buffer}
use linux_0_11_lab.Fs.Buffer.{
  Cache, Got, add_user, again, buffer_at, check_chosen, check_found, drop_user, erase, getblk, got,
  is_for, no_buffer, put_buffer, remove_from_queues, take_buffer, waits_chosen, waits_found,
  waits_free, writes_out,
}
use linux_0_11_lab.Fs.Buffer.Choose.{choose_lem}
use linux_0_11_lab.Fs.Buffer.Find.{IsCache, IsFor, find_buffer_lem}
use linux_0_11_lab.Fs.Buffer.Move.{long, move_lem, moved, moved-IsCache, other, self}
use linux_0_11_lab.Fs.Buffer.Take.{put_buffer-IsCache}

-- No buffer is for the block.
abbrev pub Absent : ℕ → ℕ → Cache → Type 0
Absent dev block s = (x : ℕ) → IsFor dev block s x → ⊥

-- What take_buffer leaves.
pub record Taken (dev block x : ℕ) (s s' : Cache) : Type 0 where
  pub sound : IsCache s'
  pub for_block : IsFor dev block s' x
  pub one_user : (buffer_at s' x).b_count ≡ 1
  pub empty : (buffer_at s' x).b_uptodate ≡ false
  pub clean : (buffer_at s' x).b_dirt ≡ false
  pub same_lock : (buffer_at s' x).b_lock ≡ (buffer_at s x).b_lock
  pub others : (y : ℕ) → y ≢ x → buffer_at s' y ≡ buffer_at s y
  pub last : s'.free_list ≡ erase x s.free_list ++ (x ∷ [])

abbrev cleaned : ℕ → Cache → Buffer
cleaned x s = record (buffer_at s x) { b_count = 1; b_dirt = false; b_uptodate = false }

module _ (dev block x : ℕ) (s : Cache) (valid : IsCache s) (l : x < length s.buffers) (nz : dev ≢ 0)
    (absent : Absent dev block s) where
  abbrev s0 : Cache
  s0 = put_buffer x (cleaned x s) s

  abbrev renamed : Buffer
  renamed = record (cleaned x s) { b_dev = dev; b_blocknr = block }

  l0 : x < length s0.buffers
  l0 = let n = length-set s.buffers x (cleaned x s) in omega arith

  valid0 : IsCache s0
  valid0 = put_buffer-IsCache x (cleaned x s) s valid refl refl

  absent0 : Absent dev block s0
  absent0 y f = elim (ℕ_discrete x y) [
    | yes e ↦ absent y (record {
      in_range = rw (← e) l;
      same_dev =
          rw (← e) (rw (← e, get_or-set_self s.buffers x (cleaned x s) no_buffer l) at f.same_dev);
      same_block =
          rw (← e)
            (rw (← e, get_or-set_self s.buffers x (cleaned x s) no_buffer l) at f.same_block);
    })
    | no ne ↦ absent y (record {
      in_range = let n = length-set s.buffers x (cleaned x s) in let k = f.in_range in omega arith;
      same_dev = rw (get_or-set_ne s.buffers (cleaned x s) no_buffer ne) at f.same_dev;
      same_block = rw (get_or-set_ne s.buffers (cleaned x s) no_buffer ne) at f.same_block;
    })
  ]

  kept_head : buffer_at (remove_from_queues x s0) x ≡ cleaned x s
  unfolding remove_from_queues
  kept_head = get_or-set_self s.buffers x (cleaned x s) no_buffer l

  take_eq : take_buffer dev block x s ≡ moved x renamed s0 valid0 l0 nz
  unfolding take_buffer
  take_eq = rw kept_head (move_lem x renamed s0 valid0 l0 nz)

  pub take_buffer_lem : Taken dev block x s (take_buffer dev block x s)
  take_buffer_lem =
      let m = moved x renamed s0 valid0 l0 nz in
      let at_x : buffer_at m x ≡ renamed = self x renamed s0 valid0 l0 nz in
      rw take_eq (record {
        sound = moved-IsCache x renamed s0 valid0 l0 nz absent0;
        for_block = record {
          in_range = rw (long x renamed s0 valid0 l0 nz) l0;
          same_dev = ap (λ b. b.b_dev) at_x;
          same_block = ap (λ b. b.b_blocknr) at_x;
        };
        one_user = ap (λ b. b.b_count) at_x;
        empty = ap (λ b. b.b_uptodate) at_x;
        clean = ap (λ b. b.b_dirt) at_x;
        same_lock = ap (λ b. b.b_lock) at_x;
        others = λ y ne.
            other x renamed s0 valid0 l0 nz y ne
            ∙ get_or-set_ne s.buffers (cleaned x s) no_buffer (λ z. ne (sym z));
        last = refl;
      })

-- How a call, or the part of one behind a sleep, may end: with the sound cache of the block's only
-- buffer, which is not locked; or with a sound cache, asleep or about to try again.
pub data Safe (dev block : ℕ) : Got → Type 0 where
  gives :
      (x : ℕ) (s : Cache)
      → IsCache s
      → IsFor dev block s x
      → (buffer_at s x).b_lock ≡ false
      → Safe dev block (got x s)
  found_locked :
      (x : ℕ) (s : Cache)
      → IsCache s
      → (buffer_at s x).b_lock ≡ true
      → Safe dev block (waits_found x s)
  chosen_locked :
      (x : ℕ) (s : Cache)
      → IsCache s
      → (buffer_at s x).b_lock ≡ true
      → Safe dev block (waits_chosen x s)
  chosen_dirty :
      (x : ℕ) (s : Cache)
      → IsCache s
      → (buffer_at s x).b_dirt ≡ true
      → Safe dev block (writes_out x s)
  no_free : (s : Cache) → IsCache s → Safe dev block (waits_free s)
  retries : (s : Cache) → IsCache s → Safe dev block (again s)

check_found-Safe :
    (dev block x : ℕ) (s : Cache)
    → IsCache s
    → x < length s.buffers
    → Safe dev block (check_found dev block x s)
unfolding check_found
check_found-Safe dev block x s valid l = elim (Bool-cases ((buffer_at s x).b_lock)) [
  | inl t ↦
      let q : check_found dev block x s ≡ waits_found x s = rw (t, check_found) refl in
      rw q (found_locked x s valid t)
  | inr t ↦ elim (Bool-cases (is_for dev block (buffer_at s x))) [
    | inl u ↦
        let q : check_found dev block x s ≡ got x s = rw (t, u, check_found) refl in
        rw q (
          gives x s valid
            (record { in_range = l; same_dev = ground (arith, u); same_block = ground (arith, u) })
            t)
    | inr u ↦
        let q : check_found dev block x s ≡ again (drop_user x s) = rw (t, u, check_found) refl in
        rw q (retries (drop_user x s) (put_buffer-IsCache x _ s valid refl refl))
  ]
]

check_chosen-Safe :
    (dev block x : ℕ) (s : Cache)
    → IsCache s
    → x < length s.buffers
    → dev ≢ 0
    → Safe dev block (check_chosen dev block x s)
unfolding check_chosen
check_chosen-Safe dev block x s valid l nz = elim (Bool-cases ((buffer_at s x).b_lock)) [
  | inl t ↦
      let q : check_chosen dev block x s ≡ waits_chosen x s = rw (t, check_chosen) refl in
      rw q (chosen_locked x s valid t)
  | inr t ↦ elim (Bool-cases ((buffer_at s x).b_count == 0)) [
    | inr u ↦
        let q : check_chosen dev block x s ≡ again s = rw (t, u, check_chosen) refl in
        rw q (retries s valid)
    | inl u ↦ elim (Bool-cases ((buffer_at s x).b_dirt)) [
      | inl v ↦
          let q : check_chosen dev block x s ≡ writes_out x s = rw (t, u, v, check_chosen) refl in
          rw q (chosen_dirty x s valid v)
      | inr v ↦ elim (find_buffer_lem dev block s valid nz) [
        | inl (y, e, _) ↦
            let q : check_chosen dev block x s ≡ again s = rw (t, u, v, e, check_chosen) refl in
            rw q (retries s valid)
        | inr (e, absent) ↦
            let q : check_chosen dev block x s ≡ got x (take_buffer dev block x s) =
              rw (t, u, v, e, check_chosen) refl in
            let k = take_buffer_lem dev block x s valid l nz absent in
            rw q (gives x (take_buffer dev block x s) k.sound k.for_block (k.same_lock ∙ t))
      ]
    ]
  ]
]

getblk-Safe :
    (dev block : ℕ) (s : Cache) → IsCache s → dev ≢ 0 → Safe dev block (getblk dev block s)
unfolding getblk
getblk-Safe dev block s valid nz = elim (find_buffer_lem dev block s valid nz) [
  | inl (x, e, f) ↦
      let n =
        length-set s.buffers x
          (record (buffer_at s x) { b_count = ((buffer_at s x).b_count + 1) % 256 }) in
      let r = f.in_range in
      rw (e, getblk)
        (check_found-Safe dev block x (add_user x s) (put_buffer-IsCache x _ s valid refl refl)
          (omega arith))
  | inr (e, absent) ↦ elim (choose_lem s.buffers s.free_list) [
    | inl (n, _) ↦ rw (e, n, getblk) (no_free s valid)
    | inr (x, c, h) ↦
        rw (e, c, getblk) (check_chosen-Safe dev block x s valid (valid.only_free x h.listed) nz)
  ]
]

-- The cache stays sound, and in it a block has one buffer at most, through each part of getblk: from
-- its call up to its first sleep, and from the wake-up of each sleep, with whatever sound cache the
-- other tasks have left by then. When getblk gives a buffer, it is the block's and is not locked.
pub getblk-IsCache :
    (dev block : ℕ) (s : Cache)
    → IsCache s
    → dev ≢ 0
    → Safe dev block (getblk dev block s)
      × ((x : ℕ)
          → x < length s.buffers
          → Safe dev block (check_found dev block x s)
            × Safe dev block (check_chosen dev block x s))
getblk-IsCache dev block s valid nz = (
  getblk-Safe dev block s valid nz,
  λ x l. (check_found-Safe dev block x s valid l, check_chosen-Safe dev block x s valid l nz),
)
