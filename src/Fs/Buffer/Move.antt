-- ===== src/Fs/Buffer/Move.antt =====
-- remove_from_queues and insert_into_queues around a change of device and block.
use linux_0_11_lab.Base.{
  In, IsNodup, List, [], arith, false, get_or, get_or-set_ne, get_or-set_self, inl, inr, length,
  length-set, refl, set, sym, ℕ, ◌++◌, ◌<◌, ◌==◌, ◌∙◌, ◌∷◌, ◌≡◌, ◌≢◌, ◌⊎◌,
}
use native.Mathlib.Decide.{ℕ_discrete}
use linux_0_11_lab.Block.{Buffer}
use linux_0_11_lab.Fs.Buffer.{
  Cache, buffer_at, erase, hashfn, insert_into_queues, no_buffer, put_buffer, queue_of,
  remove_from_queues,
}
use linux_0_11_lab.Fs.Buffer.Find.{IsCache, IsFor}
use linux_0_11_lab.Fs.Buffer.Queues.{
  In-append, In-append_left, In-append_right, append_one-IsNodup, erase-IsNodup, erase_other,
  erase_part, erase_self,
}
use linux_0_11_lab.Fs.Buffer.Take.{
  In-without, hashfn-lt, old_hash, without, without-In, without-IsNodup,
}

module _ (x : ℕ) (bh : Buffer) (s : Cache) (valid : IsCache s) (l : x < length s.buffers)
    (nz : bh.b_dev ≢ 0) where
  abbrev pub new_hash : ℕ
  new_hash = hashfn bh.b_dev bh.b_blocknr

  abbrev pub old : List (List ℕ)
  old = without x s valid

  abbrev pub moved : Cache
  moved = record {
    buffers = set s.buffers x bh;
    hash_table = set old new_hash (x ∷ get_or old new_hash []);
    free_list = erase x s.free_list ++ (x ∷ []);
  }

  pub self : buffer_at moved x ≡ bh
  self = get_or-set_self s.buffers x bh no_buffer l

  pub other : (y : ℕ) → y ≢ x → buffer_at moved y ≡ buffer_at s y
  other y ne = get_or-set_ne s.buffers bh no_buffer (λ z. ne (sym z))

  pub move_lem : insert_into_queues x (put_buffer x bh (remove_from_queues x s)) ≡ moved
  unfolding insert_into_queues remove_from_queues
  move_lem = let z : (bh.b_dev == 0) ≡ false = ground arith in rw (self, z) refl

  new_queue : get_or moved.hash_table new_hash [] ≡ x ∷ get_or old new_hash []
  new_queue =
      let n = valid.hashes in
      let k = hashfn-lt bh.b_dev bh.b_blocknr in
      let m =
        length-set s.hash_table (old_hash x s valid)
          (erase x (get_or s.hash_table (old_hash x s valid) [])) in
      get_or-set_self old new_hash _ [] (omega arith)

  In-moved :
      (h y : ℕ)
      → In y (get_or moved.hash_table h [])
      → ((new_hash ≡ h) × (y ≡ x)) ⊎ (In y (get_or s.hash_table h []) × (y ≢ x))
  In-moved h y i = elim (ℕ_discrete new_hash h) [
    | yes e ↦
        let j : (y ≡ x) ⊎ In y (get_or old new_hash []) = rw (← e, new_queue) at i in
        elim j [ inl z ↦ inl (e, z) | inr k ↦ inr (rw (← e) (In-without x s valid new_hash y k)) ]
    | no ne ↦
        inr (
          In-without x s valid h y (rw (get_or-set_ne old (x ∷ get_or old new_hash []) [] ne) at i))
  ]

  moved-In :
      (h y : ℕ) → In y (get_or s.hash_table h []) → y ≢ x → In y (get_or moved.hash_table h [])
  moved-In h y i ne =
      let j = without-In x s valid h y i ne in
      elim (ℕ_discrete new_hash h) [
        | yes e ↦ rw (← e, new_queue) (inr (rw (← e) at j))
        | no n ↦ rw (get_or-set_ne old (x ∷ get_or old new_hash []) [] n) j
      ]

  moved-IsNodup : (h : ℕ) → IsNodup (get_or moved.hash_table h [])
  moved-IsNodup h = elim (ℕ_discrete new_hash h) [
    | yes e ↦
        rw (← e, new_queue)
          (λ i. (In-without x s valid new_hash x i).1 refl, without-IsNodup x s valid new_hash)
    | no n ↦ rw (get_or-set_ne old (x ∷ get_or old new_hash []) [] n) (without-IsNodup x s valid h)
  ]

  pub long : length moved.buffers ≡ length s.buffers
  long = length-set s.buffers x bh

  moved_queued :
      (y : ℕ)
      → y < length moved.buffers
      → (buffer_at moved y).b_dev ≢ 0
      → In y (queue_of moved (buffer_at moved y).b_dev (buffer_at moved y).b_blocknr)
  moved_queued y ly n = elim (ℕ_discrete y x) [
    | yes e ↦ rw (e, self, new_queue) (inl refl)
    | no ne ↦
        let o = other y ne in
        rw o (
          moved-In (hashfn (buffer_at s y).b_dev (buffer_at s y).b_blocknr) y
            (valid.queued y (rw long at ly) (rw o at n)) ne)
  ]

  moved_placed :
      (h y : ℕ)
      → In y (get_or moved.hash_table h [])
      → (y < length moved.buffers)
        × ((buffer_at moved y).b_dev ≢ 0)
        × (hashfn (buffer_at moved y).b_dev (buffer_at moved y).b_blocknr ≡ h)
  moved_placed h y i = elim (In-moved h y i) [
    | inl (e, z) ↦ rw (z, self) (rw long l, nz, e)
    | inr (j, ne) ↦ let p = valid.placed h y j in rw (other y ne) (rw long p.0, p.1, p.2)
  ]

  module _ (fresh : (y : ℕ) → IsFor bh.b_dev bh.b_blocknr s y → ⊥) where
    moved_unique :
        (y z : ℕ)
        → y < length moved.buffers
        → z < length moved.buffers
        → (buffer_at moved y).b_dev ≢ 0
        → (buffer_at moved y).b_dev ≡ (buffer_at moved z).b_dev
        → (buffer_at moved y).b_blocknr ≡ (buffer_at moved z).b_blocknr
        → y ≡ z
    moved_unique y z ly lz n d b = elim (ℕ_discrete y x) [
      | yes ey ↦ elim (ℕ_discrete z x) [
        | yes ez ↦ ey ∙ sym ez
        | no nz' ↦ absurd (
            fresh z (record {
              in_range = rw long at lz;
              same_dev = sym (rw (ey, self, other z nz') at d);
              same_block = sym (rw (ey, self, other z nz') at b);
            }))
      ]
      | no ny ↦ elim (ℕ_discrete z x) [
        | yes ez ↦ absurd (
            fresh y (record {
              in_range = rw long at ly;
              same_dev = rw (ez, self, other y ny) at d;
              same_block = rw (ez, self, other y ny) at b;
            }))
        | no nz' ↦
            valid.unique y z (rw long at ly) (rw long at lz) (rw (other y ny) at n)
              (rw (other y ny, other z nz') at d) (rw (other y ny, other z nz') at b)
      ]
    ]

    pub moved-IsCache : IsCache moved
    moved-IsCache = record {
      hashes =
          length-set old new_hash _ ∙ length-set s.hash_table (old_hash x s valid) _ ∙ valid.hashes;
      queued = moved_queued;
      placed = moved_placed;
      unique = moved_unique;
      nodup = moved-IsNodup;
      all_free = λ y ly. elim (ℕ_discrete y x) [
        | yes e ↦ In-append_right y (erase x s.free_list) (x ∷ []) (inl e)
        | no ne ↦
            In-append_left y (erase x s.free_list) (x ∷ [])
              (erase_other x y s.free_list ne (valid.all_free y (rw long at ly)))
      ];
      only_free = λ y i. elim (In-append y (erase x s.free_list) (x ∷ []) i) [
        | inl j ↦ rw long (valid.only_free y (erase_part x y s.free_list j))
        | inr j ↦ rw long (elim j [ inl e ↦ rw e l | inr k ↦ absurd k ])
      ];
      free_nodup =
          append_one-IsNodup (erase x s.free_list) x (erase-IsNodup x s.free_list valid.free_nodup)
            (erase_self x s.free_list valid.free_nodup);
    }
