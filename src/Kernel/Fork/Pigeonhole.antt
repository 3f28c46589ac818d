-- ===== src/Kernel/Fork/Pigeonhole.antt =====
-- Among more numbers than there are tasks, one is not a task's.
use linux_0_11_lab.Base.{
  Bool, Bool-cases, arith, false, inl, inr, refl, suc, true, zero, ℕ, ◌+◌, ◌<◌, ◌||◌, ◌≡◌, ◌≤◌,
}

bit : Bool → ℕ
bit true = 1
bit false = 0

-- How many of the first `n` values of `f` pass the test.
pub count_below : ℕ → (ℕ → Bool) → ℕ
count_below zero f = 0
count_below (suc n) f = bit (f n) + count_below n f

count_below-all : (n : ℕ) (f : ℕ → Bool) → ((k : ℕ) → k < n → f k ≡ true) → count_below n f ≡ n
unfolding count_below bit
count_below-all zero f h = refl
count_below-all (suc n) f h =
    rw (h n (omega arith)) (omega (arith, count_below-all n f (λ k l. h k (omega arith))))

-- Below the full count some value fails, and the first such is found.
pub some_fails : (n : ℕ) (f : ℕ → Bool) → count_below n f < n → (k : ℕ) × (k < n) × (f k ≡ false)
unfolding count_below bit
some_fails zero f h = absurd (omega arith)
some_fails (suc n) f h = elim (Bool-cases (f n)) [
  | inl t ↦ let (k, l, e) = some_fails n f (ground (arith, h, t)) in (k, omega arith, e)
  | inr e ↦ (n, omega arith, e)
]

pub count_below-or :
    (n : ℕ) (f g : ℕ → Bool) → count_below n (λ k. f k || g k) ≤ count_below n f + count_below n g
unfolding count_below bit
count_below-or zero f g = omega arith
count_below-or (suc n) f g = ground (arith, count_below-or n f g)

pub count_below-none :
    (n : ℕ) (f : ℕ → Bool) → ((k : ℕ) → k < n → f k ≡ false) → count_below n f ≡ 0
unfolding count_below bit
count_below-none zero f h = refl
count_below-none (suc n) f h =
    rw (h n (omega arith)) (omega (arith, count_below-none n f (λ k l. h k (omega arith))))

-- A test that no two arguments pass counts at most one.
pub count_below-once :
    (n : ℕ) (f : ℕ → Bool)
    → ((j k : ℕ) → j < n → k < n → f j ≡ true → f k ≡ true → j ≡ k)
    → count_below n f ≤ 1
unfolding count_below bit
count_below-once zero f h = omega arith
count_below-once (suc n) f h = elim (Bool-cases (f n)) [
  | inl t ↦
      let none_below : (k : ℕ) → k < n → f k ≡ false = λ k l. elim (Bool-cases (f k)) [
        | inl u ↦ absurd (omega (arith, h k n (omega arith) (omega arith) u t))
        | inr u ↦ u
      ] in
      rw t (omega (arith, count_below-none n f none_below))
  | inr t ↦
      rw t (omega (arith, count_below-once n f (λ j k a b. h j k (omega arith) (omega arith))))
]
