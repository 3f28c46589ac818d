-- ===== src/Fs/Buffer/Take.antt =====
-- A buffer that becomes another block's, in the queues.
use linux_0_11_lab.Base.{
  In, IsNodup, List, [], ap, arith, get_or, get_or-past, get_or-set_ne, get_or-set_self, length,
  length-set, refl, set, sym, ℕ, ◌<◌, ◌∙◌, ◌≡◌, ◌≢◌,
}
use native.Mathlib.Decide.{dec_lt, ℕ_discrete}
use linux_0_11_lab.Block.{Buffer}
use linux_0_11_lab.Fs.Buffer.{Cache, buffer_at, erase, hashfn, no_buffer, nr_hash, put_buffer}
use linux_0_11_lab.Fs.Buffer.Find.{IsCache}
use linux_0_11_lab.Fs.Buffer.Queues.{erase-IsNodup, erase_other, erase_part, erase_self}

pub hashfn-lt : (dev block : ℕ) → hashfn dev block < nr_hash
unfolding hashfn
hashfn-lt dev block = omega arith

-- What the queues say depends on device and block of the buffers alone.
pub same_blocks-IsCache :
    (s s' : Cache)
    → IsCache s
    → s'.hash_table ≡ s.hash_table
    → s'.free_list ≡ s.free_list
    → length s'.buffers ≡ length s.buffers
    → ((y : ℕ) → (buffer_at s' y).b_dev ≡ (buffer_at s y).b_dev)
    → ((y : ℕ) → (buffer_at s' y).b_blocknr ≡ (buffer_at s y).b_blocknr)
    → IsCache s'
same_blocks-IsCache s s' valid h f n d b = record {
  hashes = rw h valid.hashes;
  queued = λ x l nz. rw (h, d x, b x) (valid.queued x (rw n at l) (rw (d x) at nz));
  placed = λ k x i. rw (n, d x, b x) (valid.placed k x (rw h at i));
  unique = λ x y lx ly nz e e'.
      valid.unique x y (rw n at lx) (rw n at ly) (rw (d x) at nz) (rw (d x, d y) at e)
        (rw (b x, b y) at e');
  nodup = λ k. rw h (valid.nodup k);
  all_free = λ x l. rw f (valid.all_free x (rw n at l));
  only_free = λ x i. rw n (valid.only_free x (rw f at i));
  free_nodup = rw f valid.free_nodup;
}

-- So any other change of one buffer keeps the invariant.
pub put_buffer-IsCache :
    (x : ℕ) (bh : Buffer) (s : Cache)
    → IsCache s
    → bh.b_dev ≡ (buffer_at s x).b_dev
    → bh.b_blocknr ≡ (buffer_at s x).b_blocknr
    → IsCache (put_buffer x bh s)
put_buffer-IsCache x bh s valid d b =
    same_blocks-IsCache s (put_buffer x bh s) valid refl refl (length-set s.buffers x bh)
      (put_buffer-field (λ r. r.b_dev) d) (put_buffer-field (λ r. r.b_blocknr) b)
  where
    put_buffer-field :
        (f : Buffer → ℕ)
        → f bh ≡ f (buffer_at s x)
        → (y : ℕ) → f (buffer_at (put_buffer x bh s) y) ≡ f (buffer_at s y)
    put_buffer-field f e y = elim (ℕ_discrete x y) [
      | yes same ↦ elim (dec_lt x (length s.buffers)) [
        | yes l ↦ rw (← same, get_or-set_self s.buffers x bh no_buffer l) e
        | no past ↦
            let n = length-set s.buffers x bh in
            ap f (
              get_or-past (set s.buffers x bh) y no_buffer (omega arith)
              ∙ sym (get_or-past s.buffers y no_buffer (omega arith)))
      ]
      | no ne ↦ ap f (get_or-set_ne s.buffers bh no_buffer ne)
    ]

module _ (x : ℕ) (s : Cache) (valid : IsCache s) where
  abbrev pub old_hash : ℕ
  old_hash = hashfn (buffer_at s x).b_dev (buffer_at s x).b_blocknr

  abbrev pub without : List (List ℕ)
  without = set s.hash_table old_hash (erase x (get_or s.hash_table old_hash []))

  old_queue : get_or without old_hash [] ≡ erase x (get_or s.hash_table old_hash [])
  old_queue =
      let n = valid.hashes in
      let l = hashfn-lt (buffer_at s x).b_dev (buffer_at s x).b_blocknr in
      get_or-set_self s.hash_table old_hash _ [] (omega arith)

  -- The queues without the buffer.
  pub In-without :
      (h y : ℕ) → In y (get_or without h []) → In y (get_or s.hash_table h []) × (y ≢ x)
  In-without h y i = elim (ℕ_discrete old_hash h) [
    | yes e ↦
        let j : In y (erase x (get_or s.hash_table old_hash [])) = rw (← e, old_queue) at i in
        (
          rw (← e) (erase_part x y (get_or s.hash_table old_hash []) j),
          λ z. erase_self x (get_or s.hash_table old_hash []) (valid.nodup old_hash) (rw z at j),
        )
    | no ne ↦
        let j : In y (get_or s.hash_table h []) = rw (get_or-set_ne s.hash_table _ [] ne) at i in
        (j, λ z. ne ((valid.placed h x (rw z at j)).2))
  ]

  pub without-In : (h y : ℕ) → In y (get_or s.hash_table h []) → y ≢ x → In y (get_or without h [])
  without-In h y i ne = elim (ℕ_discrete old_hash h) [
    | yes e ↦
        let j : In y (get_or s.hash_table old_hash []) = rw (← e) at i in
        rw (← e, old_queue) (erase_other x y (get_or s.hash_table old_hash []) ne j)
    | no n ↦ rw (get_or-set_ne s.hash_table _ [] n) i
  ]

  pub without-IsNodup : (h : ℕ) → IsNodup (get_or without h [])
  without-IsNodup h = elim (ℕ_discrete old_hash h) [
    | yes e ↦
        rw (← e, old_queue)
          (erase-IsNodup x (get_or s.hash_table old_hash []) (valid.nodup old_hash))
    | no n ↦ rw (get_or-set_ne s.hash_table _ [] n) (valid.nodup h)
  ]
