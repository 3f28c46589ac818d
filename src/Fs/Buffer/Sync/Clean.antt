-- ===== src/Fs/Buffer/Sync/Clean.antt =====
-- What sync_dev leaves.
use linux_0_11_lab.Base.{
  Bool, Bool-cases, ap, arith, false, get_or-past, get_or-set_ne, get_or-set_self, inl, inr, leb,
  length, length-set, none, not, refl, set, some, suc, sym, true, zero, ℕ, ◌+◌, ◌/◌, ◌<◌, ◌==◌,
  ◌||◌, ◌∙◌, ◌≡◌, ◌≤◌, ◌⊎◌,
}
use native.Mathlib.Decide.{dec_lt, ℕ_discrete}
use linux_0_11_lab.Block.{Buffer, Devices, is_free, slot_of, write}
use linux_0_11_lab.Block.Slots.{ll_rw_block-write}
use linux_0_11_lab.Fs.Buffer.{buffer_at, no_buffer, put_buffer}
use linux_0_11_lab.Fs.Buffer.Sync.{Synced, System, issue, sleeps_at, sync_dev, sync_loop, synced}

-- The device has a driver, so that ll_rw_block takes its requests.
abbrev pub HasDriver : (ℕ → Bool) → ℕ → Type 0
HasDriver has_driver dev = (leb 7 (dev / 256) || not (has_driver (dev / 256))) ≡ false

-- The devices of buffers stay, and what was clean stays clean.
pub record Cleaner (s s' : System) : Type 0 where
  pub same_dev : (y : ℕ) → (buffer_at s'.cache y).b_dev ≡ (buffer_at s.cache y).b_dev
  pub still_clean :
      (y : ℕ) → (buffer_at s.cache y).b_dirt ≡ false → (buffer_at s'.cache y).b_dirt ≡ false

Cleaner-same : (s : System) → Cleaner s s
Cleaner-same s = record { same_dev = λ y. refl; still_clean = λ y h. h }

Cleaner-trans : (s t u : System) → Cleaner s t → Cleaner t u → Cleaner s u
Cleaner-trans s t u a b = record {
  same_dev = λ y. b.same_dev y ∙ a.same_dev y;
  still_clean = λ y h. b.still_clean y (a.still_clean y h);
}

module _ (x : ℕ) (s : System) (d : Devices) where
  abbrev written : System
  written = record {
    cache = put_buffer x (record (buffer_at s.cache x) { b_lock = true; b_dirt = false }) s.cache;
    devices = d;
  }

  written_field :
      {B : Type 0} (f : Buffer → B)
      → f (record (buffer_at s.cache x) { b_lock = true; b_dirt = false }) ≡ f (buffer_at s.cache x)
      → (y : ℕ) → f (buffer_at written.cache y) ≡ f (buffer_at s.cache y)
  written_field f e y = elim (ℕ_discrete x y) [
    | yes same ↦ elim (dec_lt x (length s.cache.buffers)) [
      | yes l ↦ rw (← same, get_or-set_self s.cache.buffers x _ no_buffer l) e
      | no past ↦
          let n =
            length-set s.cache.buffers x
              (record (buffer_at s.cache x) { b_lock = true; b_dirt = false }) in
          ap f (
            get_or-past (set s.cache.buffers x _) y no_buffer (omega arith)
            ∙ sym (get_or-past s.cache.buffers y no_buffer (omega arith)))
    ]
    | no ne ↦ ap f (get_or-set_ne s.cache.buffers _ no_buffer ne)
  ]

  written-clean : (buffer_at written.cache x).b_dirt ≡ false
  written-clean = elim (dec_lt x (length s.cache.buffers)) [
    | yes l ↦ ap (λ b. b.b_dirt) (get_or-set_self s.cache.buffers x _ no_buffer l)
    | no past ↦
        let n =
          length-set s.cache.buffers x
            (record (buffer_at s.cache x) { b_lock = true; b_dirt = false }) in
        ap (λ b. b.b_dirt) (get_or-past (set s.cache.buffers x _) x no_buffer (omega arith))
  ]

  written-Cleaner : Cleaner s written
  written-Cleaner = record {
    same_dev = written_field (λ b. b.b_dev) refl;
    still_clean = λ y h. elim (ℕ_discrete x y) [
      | yes same ↦ rw (← same) written-clean
      | no ne ↦ ap (λ b. b.b_dirt) (get_or-set_ne s.cache.buffers _ no_buffer ne) ∙ h
    ];
  }

-- How sync_loop over the buffers `x` to `x + n - 1` ends. A slot for writes is one of the first 21.
pub data Ends (dev n x : ℕ) (s : System) : Synced → Type 0 where
  all_clean :
      (s' : System)
      → Cleaner s s'
      → ((y : ℕ)
          → x ≤ y
          → y < x + n
          → (buffer_at s.cache y).b_dev ≡ dev
          → (buffer_at s'.cache y).b_dirt ≡ false)
      → Ends dev n x s (synced s')
  for_lock :
      (y : ℕ) (s' : System)
      → (buffer_at s'.cache y).b_dev ≡ dev
      → (buffer_at s'.cache y).b_lock ≡ true
      → Ends dev n x s (sleeps_at y s')
  for_slot :
      (y : ℕ) (s' : System)
      → (buffer_at s'.cache y).b_dev ≡ dev
      → ((j : ℕ) → j < 21 → is_free (slot_of s'.devices.request j) ≡ false)
      → Ends dev n x s (sleeps_at y s')

issue_lem :
    (has_driver : ℕ → Bool) (x : ℕ) (s : System)
    → HasDriver has_driver (buffer_at s.cache x).b_dev
    → (buffer_at s.cache x).b_lock ≡ false
    → (buffer_at s.cache x).b_dirt ≡ true
    → ((d : Devices) × (issue has_driver write x s ≡ some (written x s d)))
      ⊎ ((issue has_driver write x s ≡ none)
          × ((j : ℕ) → j < 21 → is_free (slot_of s.devices.request j) ≡ false))
unfolding issue
issue_lem has_driver x s driver free dirty =
    elim (ll_rw_block-write has_driver (buffer_at s.cache x) s.devices driver free dirty) [
      | inl (slot, started, d, q) ↦ inl (d, rw (q, issue) refl)
      | inr (q, all) ↦ inr (rw (q, issue) refl, all)
    ]

-- The loop goes on behind buffer `x`, which is not of the device or has become clean.
Ends-later :
    (dev n x : ℕ) (s s1 : System) (o : Synced)
    → Cleaner s s1
    → ((buffer_at s.cache x).b_dev ≡ dev → (buffer_at s1.cache x).b_dirt ≡ false)
    → Ends dev n (x + 1) s1 o
    → Ends dev (suc n) x s o
Ends-later dev n x s s1 _ c1 here (all_clean s' c all) =
    all_clean s' (Cleaner-trans s s1 s' c1 c) (λ y a b d. elim (ℕ_discrete y x) [
      | yes same ↦ let d' = rw same at d in rw same (c.still_clean x (here d'))
      | no ne ↦ all y (omega arith) (omega arith) (c1.same_dev y ∙ d)
    ])
Ends-later dev n x s s1 _ c1 here (for_lock y s' d l) = for_lock y s' d l
Ends-later dev n x s s1 _ c1 here (for_slot y s' d l) = for_slot y s' d l

sync_loop-Ends :
    (has_driver : ℕ → Bool) (dev n x : ℕ) (s : System)
    → HasDriver has_driver dev
    → Ends dev n x s (sync_loop has_driver dev n x s)
unfolding sync_loop
sync_loop-Ends has_driver dev zero x s driver =
    all_clean s (Cleaner-same s) (λ y a b. absurd (omega arith))
sync_loop-Ends has_driver dev (suc n) x s driver =
    elim (Bool-cases ((buffer_at s.cache x).b_dev == dev)) [
      | inr t ↦
          rw (t, sync_loop)
            (Ends-later dev n x s s _ (Cleaner-same s) (λ d. absurd (ground (arith, t, d)))
              (sync_loop-Ends has_driver dev n (x + 1) s driver))
      | inl t ↦
          let its : (buffer_at s.cache x).b_dev ≡ dev = ground (arith, t) in
          elim (Bool-cases ((buffer_at s.cache x).b_lock)) [
            | inl u ↦ rw (t, u, sync_loop) (for_lock x s its u)
            | inr u ↦ elim (Bool-cases ((buffer_at s.cache x).b_dirt)) [
              | inr v ↦
                  rw (t, u, v, sync_loop)
                    (Ends-later dev n x s s _ (Cleaner-same s) (λ d. v)
                      (sync_loop-Ends has_driver dev n (x + 1) s driver))
              | inl v ↦ elim (issue_lem has_driver x s (rw its driver) u v) [
                | inr (i, all) ↦ rw (t, u, v, i, sync_loop) (for_slot x s its all)
                | inl (d, i) ↦
                    rw (t, u, v, i, sync_loop)
                      (Ends-later dev n x s (written x s d) _ (written-Cleaner x s d)
                        (λ z. written-clean x s d)
                        (sync_loop-Ends has_driver dev n (x + 1) (written x s d) driver))
              ]
            ]
          ]
    ]

-- What a call of sync_dev leaves: all buffers of the device clean; or it sleeps at a buffer of the
-- device that is locked, or at one when none of the slots for writes is free.
pub data Flushed (nr_buffers dev : ℕ) : Synced → Type 0 where
  flushed :
      (s' : System)
      → ((y : ℕ)
          → y < nr_buffers
          → (buffer_at s'.cache y).b_dev ≡ dev
          → (buffer_at s'.cache y).b_dirt ≡ false)
      → Flushed nr_buffers dev (synced s')
  sleeps_lock :
      (y : ℕ) (s' : System)
      → (buffer_at s'.cache y).b_dev ≡ dev
      → (buffer_at s'.cache y).b_lock ≡ true
      → Flushed nr_buffers dev (sleeps_at y s')
  sleeps_slot :
      (y : ℕ) (s' : System)
      → (buffer_at s'.cache y).b_dev ≡ dev
      → ((j : ℕ) → j < 21 → is_free (slot_of s'.devices.request j) ≡ false)
      → Flushed nr_buffers dev (sleeps_at y s')

Ends-Flushed : (dev n : ℕ) (s : System) (o : Synced) → Ends dev n 0 s o → Flushed n dev o
Ends-Flushed dev n s _ (all_clean s' c all) =
    flushed s' (λ y l d. all y (omega arith) (omega arith) (sym (c.same_dev y) ∙ d))
Ends-Flushed dev n s _ (for_lock y s' d l) = sleeps_lock y s' d l
Ends-Flushed dev n s _ (for_slot y s' d l) = sleeps_slot y s' d l

-- sync_dev of a device with a driver, whatever sync_inodes does in between, comes to its end with no
-- buffer of the device dirty; or it sleeps at a buffer of the device, and only if that is locked or
-- none of the 21 slots for writes is free.
pub sync_dev_clean :
    (has_driver : ℕ → Bool) (sync_inodes : System → System) (dev : ℕ) (s : System)
    → HasDriver has_driver dev
    → Flushed (length s.cache.buffers) dev (sync_dev has_driver sync_inodes dev s)
unfolding sync_dev
sync_dev_clean has_driver sync_inodes dev s driver =
    go (sync_loop has_driver dev nr_buffers 0 s)
      (sync_loop-Ends has_driver dev nr_buffers 0 s driver)
  where
    nr_buffers : ℕ
    nr_buffers = length s.cache.buffers

    go :
        (o : Synced)
        → Ends dev nr_buffers 0 s o
        → Flushed nr_buffers dev (elim o [
          | sleeps_at x s' ↦ sleeps_at x s'
          | synced s' ↦ sync_loop has_driver dev nr_buffers 0 (sync_inodes s')
        ])
    go _ (all_clean s' c all) =
        Ends-Flushed dev nr_buffers (sync_inodes s') _
          (sync_loop-Ends has_driver dev nr_buffers 0 (sync_inodes s') driver)
    go _ (for_lock y s' d l) = sleeps_lock y s' d l
    go _ (for_slot y s' d l) = sleeps_slot y s' d l
