-- ===== src/Kernel/Timer/Insert.antt =====
-- Where add_timer puts a timer, and what it does to the others.
use linux_0_11_lab.Base.{
  Bool-cases, List, [], ap, arith, false, if◌then◌else◌, inl, inr, length, ltb, lt→ltb, refl, some,
  suc, true, zero, ℕ, ◌++◌, ◌+◌, ◌-◌, ◌<◌, ◌∙◌, ◌∷◌, ◌≡◌, ◌≤◌,
}
use linux_0_11_lab.Base.Int.{pos}
use linux_0_11_lab.Kernel.Timer.{Fn, Timer, add_timer, added, insert, time_requests}

-- The times at which the entries are due, when it is `t`.
unfoldable pub due : ℕ → List Timer → List (ℕ × Fn)
due t [] = []
due t ((j, f) ∷ q) = (t + j, f) ∷ due (t + j) q

pub earlier : ℕ → List (ℕ × Fn) → List (ℕ × Fn)
earlier m [] = []
earlier m ((k, f) ∷ l) = if ltb k m then (k, f) ∷ earlier m l else []

pub not_earlier : ℕ → List (ℕ × Fn) → List (ℕ × Fn)
not_earlier m [] = []
not_earlier m ((k, f) ∷ l) = if ltb k m then not_earlier m l else (k, f) ∷ l

pub delay : ℕ → List (ℕ × Fn) → List (ℕ × Fn)
delay d [] = []
delay d ((k, f) ∷ l) = (k + d, f) ∷ delay d l

-- The ticks between the last entry that is due before the new one and the new one.
pub residual : ℕ → List Timer → ℕ
residual j [] = j
residual j ((k, g) ∷ q) = if ltb k j then residual (j - k) q else j

due-add : (d t : ℕ) (q : List Timer) → due (t + d) q ≡ delay d (due t q)
unfolding due delay
due-add d t [] = refl
due-add d t ((j, f) ∷ q) =
    let e : t + d + j ≡ t + j + d = omega arith in rw e (rw (due-add d (t + j) q) refl)

due-insert :
    (t j : ℕ) (f : Fn) (q : List Timer)
    → due t (insert j f q)
      ≡ earlier (t + j) (due t q)
        ++ ((t + j, f) ∷ delay (residual j q) (not_earlier (t + j) (due t q)))
unfolding insert due earlier not_earlier residual delay
due-insert t j f [] = refl
due-insert t j f ((k, g) ∷ q) = elim (Bool-cases (ltb k j)) [
  | inl h ↦
      let h' : ltb (t + k) (t + j) ≡ true = ground arith in
      let e : t + k + (j - k) ≡ t + j = ground arith in
      rw (h, h') (ap (λ l. (t + k, g) ∷ l) (due-insert (t + k) (j - k) f q ∙ rw e refl))
  | inr h ↦
      let h' : ltb (t + k) (t + j) ≡ false = ground arith in
      let e : t + j + k ≡ t + k + j = omega arith in
      rw (h, h') (rw e (rw (due-add j (t + k) q) refl))
]

residual-pos : (j : ℕ) (q : List Timer) → 1 ≤ j → 1 ≤ residual j q
unfolding residual
residual-pos j [] h = h
residual-pos j ((k, g) ∷ q) h = ground (arith, residual-pos (j - k) q)

module _ (call : Fn → List Timer → List Timer) where
  -- A timer for `n` ticks ahead, with a slot free, is due exactly `n` ticks from now, and the
  -- timers that were due before it stay due when they were. Every other timer is put off, all of
  -- them by the same number of ticks, at least one.
  pub add_timer-due :
      (n t : ℕ) (f : Fn) (q : List Timer)
      → 1 ≤ n
      → length q < time_requests
      → (q' : List Timer) × (add_timer call (pos n) (some f) q ≡ added q')
        × (due t q'
            ≡ earlier (t + n) (due t q)
              ++ ((t + n, f) ∷ delay (residual n q) (not_earlier (t + n) (due t q))))
        × (1 ≤ residual n q)
  unfolding add_timer
  add_timer-due zero t f q h room = absurd (omega arith)
  add_timer-due (suc n) t f q h room =
      (insert (suc n) f q, rw (lt→ltb _ _ room) refl, due-insert t (suc n) f q, residual-pos _ q h)
