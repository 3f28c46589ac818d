-- ===== src/Fs/Buffer/Find.antt =====
-- The invariant of the buffer cache, and what find_buffer says under it.
use linux_0_11_lab.Base.{
  In, IsNodup, Bool-cases, List, [], arith, false, get_or, inl, inr, length, none, refl, some, sym,
  true, ℕ, ◌<◌, ◌∙◌, ◌∷◌, ◌≡◌, ◌≢◌, ◌⊎◌,
}
use linux_0_11_lab.Block.{Buffer}
use linux_0_11_lab.Fs.Buffer.{
  Cache, buffer_at, find_buffer, find_in, hashfn, is_for, no_buffer, nr_hash, queue_of,
}

-- The buffers with a device are the ones in the hash queues, each in that of its block, and no two
-- of them are for one block. The free list has each buffer once.
pub record IsCache (s : Cache) : Type 0 where
  pub hashes : length s.hash_table ≡ nr_hash
  pub queued :
      (x : ℕ)
      → x < length s.buffers
      → (buffer_at s x).b_dev ≢ 0
      → In x (queue_of s (buffer_at s x).b_dev (buffer_at s x).b_blocknr)
  pub placed :
      (h x : ℕ)
      → In x (get_or s.hash_table h [])
      → (x < length s.buffers)
        × ((buffer_at s x).b_dev ≢ 0)
        × (hashfn (buffer_at s x).b_dev (buffer_at s x).b_blocknr ≡ h)
  pub unique :
      (x y : ℕ)
      → x < length s.buffers
      → y < length s.buffers
      → (buffer_at s x).b_dev ≢ 0
      → (buffer_at s x).b_dev ≡ (buffer_at s y).b_dev
      → (buffer_at s x).b_blocknr ≡ (buffer_at s y).b_blocknr
      → x ≡ y
  pub nodup : (h : ℕ) → IsNodup (get_or s.hash_table h [])
  pub all_free : (x : ℕ) → x < length s.buffers → In x s.free_list
  pub only_free : (x : ℕ) → In x s.free_list → x < length s.buffers
  pub free_nodup : IsNodup s.free_list

-- Buffer `x` is the one for the block.
pub record IsFor (dev block : ℕ) (s : Cache) (x : ℕ) : Type 0 where
  pub in_range : x < length s.buffers
  pub same_dev : (buffer_at s x).b_dev ≡ dev
  pub same_block : (buffer_at s x).b_blocknr ≡ block

find_in_lem :
    (dev block : ℕ) (buffers : List Buffer) (queue : List ℕ)
    → ((x : ℕ) × (find_in dev block buffers queue ≡ some x)
        × In x queue
        × (is_for dev block (get_or buffers x no_buffer) ≡ true))
      ⊎ ((find_in dev block buffers queue ≡ none)
          × ((x : ℕ) → In x queue → is_for dev block (get_or buffers x no_buffer) ≡ false))
unfolding find_in
find_in_lem dev block buffers [] = inr (refl, λ x i. absurd i)
find_in_lem dev block buffers (y ∷ queue) =
    elim (Bool-cases (is_for dev block (get_or buffers y no_buffer))) [
      | inl t ↦ inl (y, rw t refl, inl refl, t)
      | inr t ↦ elim (find_in_lem dev block buffers queue) [
        | inl (x, e, i, f) ↦ inl (x, rw t e, inr i, f)
        | inr (e, all) ↦ inr (rw t e, λ x i. elim i [ inl z ↦ rw z t | inr j ↦ all x j ])
      ]
    ]

-- find_buffer finds a buffer for the block exactly if there is one.
pub find_buffer_lem :
    (dev block : ℕ) (s : Cache)
    → IsCache s
    → dev ≢ 0
    → ((x : ℕ) × (find_buffer dev block s ≡ some x) × IsFor dev block s x)
      ⊎ ((find_buffer dev block s ≡ none) × ((x : ℕ) → IsFor dev block s x → ⊥))
unfolding find_buffer
find_buffer_lem dev block s valid nz =
    elim (find_in_lem dev block s.buffers (queue_of s dev block)) [
      | inl (x, e, i, t) ↦ inl (
        x,
        e,
        record {
          in_range = (valid.placed (hashfn dev block) x i).0;
          same_dev = ground arith;
          same_block = ground arith;
        },
      )
      | inr (e, all) ↦ inr (
        e,
        λ x f.
            let d = f.same_dev in
            let b = f.same_block in
            let q = rw (d, b) at (valid.queued x f.in_range (λ z. nz (sym d ∙ z))) in
            let a = all x q in ground arith,
      )
    ]
