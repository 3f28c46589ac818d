-- ===== src/Kernel/Fork/Unused.antt =====
-- The number and the slot that find_empty_process finds.
use linux_0_11_lab.Base.{
  Bool, Bool-cases, Option, [], ap, arith, false, get_or, if◌then◌else◌, inl, inr, length, ltb,
  none, refl, some, suc, zero, ℕ, ◌+◌, ◌-◌, ◌<◌, ◌==◌, ◌^◌, ◌∷◌, ◌≡◌, ◌≢◌, ◌≤◌, ◌⊎◌,
}
use linux_0_11_lab.Base.Int.{eqb_ℤ, pos, ℤ}
use linux_0_11_lab.Kernel.Fork.{empty_slot, find_empty_process, find_pid, next_pid, pid_used}
use linux_0_11_lab.Kernel.Fork.Pigeonhole.{
  count_below, count_below-none, count_below-once, count_below-or, some_fails,
}
use linux_0_11_lab.Kernel.Task.{Task, Tasks, eagain, nr_tasks}

-- The number that the loop tries in round `k`.
pub candidate : ℕ → ℕ → ℕ
candidate last zero = next_pid last
candidate last (suc k) = candidate (next_pid last) k

abbrev pub IsPid : ℕ → Type 0
IsPid p = (1 ≤ p) × (p < 2 ^ 31)

-- Fewer than 2 ^ 31 - 1 rounds repeat no number.
candidate_lem :
    (last k : ℕ)
    → last < 2 ^ 31
    → k < 2 ^ 31 - 1
    → candidate last k
      ≡ (if ltb (last + k + 1) (2 ^ 31) then last + k + 1 else last + k + 2 - 2 ^ 31)
unfolding candidate next_pid
candidate_lem last zero h b = ground arith
candidate_lem last (suc k) h b =
    ground (arith, candidate_lem (if last + 1 == 2 ^ 31 then 1 else last + 1) k)

candidate_injective :
    (last j k : ℕ)
    → last < 2 ^ 31
    → j < 2 ^ 31 - 1
    → k < 2 ^ 31 - 1
    → candidate last j ≡ candidate last k
    → j ≡ k
candidate_injective last j k h a b e =
    ground (arith, candidate_lem last j h a, candidate_lem last k h b, e)

count_same : (n : ℕ) (f : ℕ → Bool) → count_below n f ≤ count_below n f
count_same n f = omega arith

-- Of any number of candidates, no more are in use than there are tasks.
used-le-length :
    (n last : ℕ) (ts : Tasks)
    → last < 2 ^ 31
    → n ≤ 2 ^ 31 - 1
    → count_below n (λ k. pid_used (candidate last k) ts) ≤ length ts
unfolding pid_used
used-le-length n last [] h b = omega (arith, count_below-none n (λ k. false) (λ k l. refl))
used-le-length n last (none ∷ ts) h b = omega (arith, used-le-length n last ts h b)
used-le-length n last (some t ∷ ts) h b =
    let once =
      count_below-once n (λ k. eqb_ℤ t.pid (pos (candidate last k)))
        (λ j k lj lk e e'.
          candidate_injective last j k h (omega arith) (omega arith) (ground (arith, e, e'))) in
    omega (
      arith,
      once,
      count_below-or n (λ k. eqb_ℤ t.pid (pos (candidate last k)))
          (λ k. pid_used (candidate last k) ts),
      used-le-length n last ts h b,
    )

next_pid-IsPid : (p : ℕ) → p < 2 ^ 31 → IsPid (next_pid p)
unfolding next_pid
next_pid-IsPid p h = ground arith

find_pid_lem :
    (fuel k last : ℕ) (ts : Tasks)
    → last < 2 ^ 31
    → k < fuel
    → pid_used (candidate last k) ts ≡ false
    → (p : ℕ) × (find_pid fuel last ts ≡ some p) × IsPid p × (pid_used p ts ≡ false)
unfolding find_pid candidate
find_pid_lem zero k last ts h l e = absurd (omega arith)
find_pid_lem (suc fuel) zero last ts h l e = (next_pid last, rw e refl, next_pid-IsPid last h, e)
find_pid_lem (suc fuel) (suc k) last ts h l e =
    let i = next_pid-IsPid last h in
    elim (Bool-cases (pid_used (next_pid last) ts)) [
      | inl u ↦
          let (p, f, r, s) = find_pid_lem fuel k (next_pid last) ts (i.1) (omega arith) e in
          (p, rw u f, r, s)
      | inr u ↦ (next_pid last, rw u refl, i, u)
    ]

pid_used-false :
    (p : ℕ) (ts : Tasks) (i : ℕ) (t : Task)
    → pid_used p ts ≡ false
    → get_or ts i none ≡ some t
    → t.pid ≢ pos p
unfolding pid_used
pid_used-false p [] i t u e = cc
pid_used-false p (none ∷ ts) zero t u e = cc
pid_used-false p (none ∷ ts) (suc i) t u e = pid_used-false p ts i t u e
pid_used-false p (some s ∷ ts) zero t u e = ground (arith, u, e)
pid_used-false p (some s ∷ ts) (suc i) t u e = pid_used-false p ts i t (ground (arith, u)) e

-- The slots of the list are full up to `n`.
abbrev pub FullBelow : ℕ → Tasks → Type 0
FullBelow n ts = (j : ℕ) → j < n → get_or ts j none ≢ none

empty_slot_lem :
    (i : ℕ) (ts : Tasks)
    → ((k : ℕ) × (empty_slot i ts ≡ some (i + k))
        × (k < length ts)
        × (get_or ts k none ≡ none)
        × FullBelow k ts)
      ⊎ ((empty_slot i ts ≡ none) × FullBelow (length ts) ts)
unfolding empty_slot
empty_slot_lem i [] = inr (refl, λ j l. absurd (omega arith))
empty_slot_lem i (none ∷ ts) =
    inl (0, ap some (omega arith), omega arith, refl, λ j l. absurd (omega arith))
empty_slot_lem i (some t ∷ ts) = elim (empty_slot_lem (i + 1) ts) [
  | inl (k, e, l, g, f) ↦
      let n : i + 1 + k ≡ i + suc k = omega arith in
      inl (suc k, rw n at e, omega arith, g, full_suc k t ts f)
  | inr (e, f) ↦ inr (e, full_suc (length ts) t ts f)
]
  where
    full_suc : (n : ℕ) (t : Task) (ts : Tasks) → FullBelow n ts → FullBelow (suc n) (some t ∷ ts)
    full_suc n t ts f zero l = λ e. cc
    full_suc n t ts f (suc j) l = f j (omega arith)

-- With at most 64 tasks find_empty_process finds within 65 rounds a positive number that no task
-- has. It returns the first empty slot but task[0], or EAGAIN when all of those are taken, and in
-- both cases has set last_pid to the number.
pub find_empty_process_lem :
    (last : ℕ) (first : Option Task) (ts : Tasks)
    → last < 2 ^ 31
    → length (first ∷ ts) ≤ nr_tasks
    → (r : ℤ) × (p : ℕ) × (find_empty_process 65 last (first ∷ ts) ≡ some (r, p))
      × IsPid p
      × ((i : ℕ) (t : Task) → get_or (first ∷ ts) i none ≡ some t → t.pid ≢ pos p)
      × (((k : ℕ) × (r ≡ pos (1 + k))
            × (k < length ts)
            × (get_or ts k none ≡ none)
            × FullBelow k ts)
          ⊎ ((r ≡ eagain) × FullBelow (length ts) ts))
unfolding find_empty_process
find_empty_process_lem last first ts h l =
    let all = first ∷ ts in
    let (k, lt, e) =
      some_fails 65 (λ k. pid_used (candidate last k) all)
        (omega (arith, used-le-length 65 last all h (omega arith))) in
    let (p, f, i, u) = find_pid_lem 65 k last all h lt e in
    elim (empty_slot_lem 1 ts) [
      | inl (n, s, b, g, full) ↦ (
        pos (1 + n),
        p,
        rw (f, s) refl,
        i,
        λ j t. pid_used-false p all j t u,
        inl (n, refl, b, g, full),
      )
      | inr (s, full) ↦
          (eagain, p, rw (f, s) refl, i, λ j t. pid_used-false p all j t u, inr (refl, full))
    ]
