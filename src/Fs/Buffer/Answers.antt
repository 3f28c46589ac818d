-- ===== src/Fs/Buffer/Answers.antt =====
-- The answers of getblk up to its first sleep.
use linux_0_11_lab.Base.{
  arith, get_or-set_self, if◌then◌else◌, inl, inr, refl, true, ℕ, ◌%◌, ◌+◌, ◌==◌, ◌≡◌, ◌≢◌, ◌⊎◌,
}
use linux_0_11_lab.Fs.Buffer.{
  Cache, add_user, buffer_at, check_chosen, check_found, getblk, got, is_for, no_buffer,
  take_buffer, waits_chosen, waits_found, waits_free, writes_out,
}
use linux_0_11_lab.Fs.Buffer.Choose.{AllUsed, Chosen, choose_lem}
use linux_0_11_lab.Fs.Buffer.Find.{IsCache, IsFor, find_buffer_lem}
use linux_0_11_lab.Fs.Buffer.Getblk.{Absent, Taken, take_buffer_lem}

-- getblk of a block that has a buffer raises the count of that buffer, and gives it or sleeps on its
-- lock. If the block has none, getblk looks for an unused buffer, than which no unused one is
-- better by dirt and lock; it sleeps if there is none, or for the lock or the write of the one it
-- has chosen, and otherwise gives that buffer to the block: with one user, not up to date, clean,
-- last in the free list, and with all other buffers as before.
pub getblk_lem :
    (dev block : ℕ) (s : Cache)
    → IsCache s
    → dev ≢ 0
    → ((x : ℕ) × IsFor dev block s x
        × (getblk dev block s ≡ (
            if (buffer_at s x).b_lock then waits_found x (add_user x s) else got x (add_user x s))))
      ⊎ (Absent dev block s × (getblk dev block s ≡ waits_free s) × AllUsed s.buffers s.free_list)
      ⊎ ((x : ℕ) × Absent dev block s
          × Chosen s.buffers s.free_list x
          × (getblk dev block s ≡ (
              if (buffer_at s x).b_lock
              then waits_chosen x s
              else if (buffer_at s x).b_dirt
              then writes_out x s
              else got x (take_buffer dev block x s)))
          × Taken dev block x s (take_buffer dev block x s))
unfolding getblk check_found check_chosen
getblk_lem dev block s valid nz = elim (find_buffer_lem dev block s valid nz) [
  | inl (x, e, f) ↦
      let bh = buffer_at s x in
      let self =
        get_or-set_self s.buffers x (record bh { b_count = (bh.b_count + 1) % 256 }) no_buffer
          f.in_range in
      let d = f.same_dev in
      let b = f.same_block in
      let t : is_for dev block bh ≡ true = ground (arith, d, b) in
      inl (x, f, rw (e, getblk, self, t) refl)
  | inr (e, absent) ↦ elim (choose_lem s.buffers s.free_list) [
    | inl (n, all) ↦ inr (inl (absent, rw (e, n, getblk) refl, all))
    | inr (x, c, h) ↦
        let u = h.unused in
        let t : ((buffer_at s x).b_count == 0) ≡ true = ground (arith, u) in
        inr (
          inr (
            x,
            absent,
            h,
            rw (e, c, getblk, t, e) refl,
            take_buffer_lem dev block x s valid (valid.only_free x h.listed) nz absent,
          ))
  ]
]
