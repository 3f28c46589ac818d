-- ===== src/Kernel/Timer/Expire.antt =====
-- When the timers go off.
use linux_0_11_lab.Base.{
  Bool-cases, List, [], ap, arith, false, if◌then◌else◌, inl, inr, leb, ltb, map, refl, some, suc,
  sym, true, zero, ℕ, ◌++◌, ◌+◌, ◌-◌, ◌==◌, ◌∙◌, ◌∷◌, ◌≡◌, ◌≤◌,
}
use linux_0_11_lab.Kernel.Timer.{Fn, Timer, expire, insert, tick, ticks}
use linux_0_11_lab.Kernel.Timer.Insert.{due}

pub by : ℕ → List (ℕ × Fn) → List (ℕ × Fn)
by m [] = []
by m ((k, f) ∷ l) = if leb k m then (k, f) ∷ by m l else []

abbrev pub AllPos : List Timer → Type 0
AllPos [] = Unit {0}
AllPos ((j, f) ∷ q) = (1 ≤ j) × AllPos q

-- add_timer keeps every count positive.
pub insert-AllPos : (j : ℕ) (f : Fn) (q : List Timer) → 1 ≤ j → AllPos q → AllPos (insert j f q)
unfolding insert
insert-AllPos j f [] h a = (h, tt)
insert-AllPos j f ((k, g) ∷ q) h a = elim (Bool-cases (ltb k j)) [
  | inl e ↦ rw e (a.0, insert-AllPos (j - k) f q (ground arith) (a.1))
  | inr e ↦ rw e (h, a)
]

pub after : ℕ → List (ℕ × Fn) → List (ℕ × Fn)
after m [] = []
after m ((k, f) ∷ l) = if leb k m then after m l else (k, f) ∷ l

-- A count that is still positive ends both lists: the later entries are due later.
split_late :
    (m t : ℕ) (q : List Timer)
    → AllPos q
    → m ≤ t
    → (by m (due t q) ≡ []) × (after m (due t q) ≡ due t q)
unfolding by after due
split_late m t [] a h = (refl, refl)
split_late m t ((j, f) ∷ q) a h =
    let e : leb (t + j) m ≡ false = ground arith in (rw e refl, rw e refl)

due-more :
    (t j : ℕ) (f : Fn) (q : List Timer)
    → due t ((suc (suc j), f) ∷ q) ≡ due (t + 1) ((suc j, f) ∷ q)
unfolding due
due-more t j f q = let e : t + suc (suc j) ≡ t + 1 + suc j = omega arith in rw e refl

split-last :
    (t m : ℕ) (f : Fn) (q : List Timer)
    → t + 1 ≤ m
    → (by m (due t ((1, f) ∷ q)) ≡ (t + 1, f) ∷ by m (due (t + 1) q))
      × (after m (due t ((1, f) ∷ q)) ≡ after m (due (t + 1) q))
unfolding by after due
split-last t m f q h = let e : leb (t + 1) m ≡ true = ground arith in (rw e refl, rw e refl)

ticks-zero :
    (call : Fn → List Timer → List Timer) (fuel t : ℕ) (q : List Timer)
    → ticks call fuel t zero q ≡ some ([], q)
unfolding ticks
ticks-zero call fuel t q = refl

shift : (t n : ℕ) → t + 1 + n ≡ t + suc n
shift t n = omega arith

tick-nil :
    (call : Fn → List Timer → List Timer) (fuel : ℕ) → tick call (suc (suc fuel)) [] ≡ some ([], [])
unfolding tick
tick-nil call fuel = refl

due-nil : (t : ℕ) → due t [] ≡ []
unfolding due
due-nil t = refl

ticks-suc :
    (call : Fn → List Timer → List Timer) (fuel t n : ℕ) (q : List Timer) {fs : List Fn}
    {r q' : List Timer} {log : List (ℕ × Fn)}
    → tick call fuel q ≡ some (fs, r)
    → ticks call fuel (t + 1) n r ≡ some (log, q')
    → ticks call fuel t (suc n) q ≡ some (map (λ f. (t + 1, f)) fs ++ log, q')
unfolding ticks
ticks-suc call fuel t n q e e' = rw (e, ticks) (rw e' refl)

module _ (call : Fn → List Timer → List Timer)
    (quiet : (f : Fn) (q : List Timer) → call f q ≡ q) where
  expire-AllPos : (fuel : ℕ) (q : List Timer) → AllPos q → expire call (suc fuel) q ≡ some ([], q)
  unfolding expire
  expire-AllPos fuel [] a = refl
  expire-AllPos fuel ((j, f) ∷ q) a = let e : (j == 0) ≡ false = ground arith in rw e refl

  tick-last :
      (fuel : ℕ) (f : Fn) (q : List Timer)
      → AllPos q
      → tick call (suc (suc fuel)) ((1, f) ∷ q) ≡ some (f ∷ [], q)
  unfolding tick expire
  tick-last fuel f q a = rw (quiet f q, expire-AllPos fuel q a) refl

  tick-more :
      (fuel j : ℕ) (f : Fn) (q : List Timer)
      → tick call (suc fuel) ((suc (suc j), f) ∷ q) ≡ some ([], (suc j, f) ∷ q)
  unfolding tick expire
  tick-more fuel j f q =
      let e : suc (suc j) - 1 ≡ suc j = omega arith in
      let e' : (suc j == 0) ≡ false = ground arith in rw (e, e') refl

  -- Over any number of timer interrupts, with callbacks that do not touch the list, the functions
  -- called are those of the timers that are due by then, in the order of the list and each in the
  -- interrupt of its time; the timers left are the others, due when they were.
  pub ticks-due :
      (fuel t n : ℕ) (q : List Timer)
      → AllPos q
      → (q' : List Timer) × (ticks call (suc (suc fuel)) t n q ≡ some (by (t + n) (due t q), q'))
        × (due (t + n) q' ≡ after (t + n) (due t q))
        × AllPos q'
  ticks-due fuel t zero q a =
      let s = split_late (t + 0) t q a (omega arith) in
      let e : t + 0 ≡ t = omega arith in
      (q, rw (s.0) (ticks-zero call _ t q), ap (λ k. due k q) e ∙ sym (s.1), a)
  ticks-due fuel t (suc n) [] a =
      let (q', e, d, a') = ticks-due fuel (t + 1) n [] a in
      let m : due t [] ≡ due (t + 1) [] = due-nil t ∙ sym (due-nil (t + 1)) in
      let run = ticks-suc call (suc (suc fuel)) t n [] (tick-nil call fuel) e in
      (q', run ∙ rw (shift t n, m) refl, rw m (rw (shift t n) at d), a')
  ticks-due fuel t (suc n) ((zero, f) ∷ q) a = absurd (omega arith)
  ticks-due fuel t (suc n) ((suc zero, f) ∷ q) a =
      let (q', e, d, a') = ticks-due fuel (t + 1) n q (a.1) in
      let s = split-last t (t + suc n) f q (omega arith) in
      let run = ticks-suc call (suc (suc fuel)) t n ((1, f) ∷ q) (tick-last fuel f q (a.1)) e in
      (q', run ∙ rw (shift t n, s.0) refl, (rw (shift t n) at d) ∙ sym (s.1), a')
  ticks-due fuel t (suc n) ((suc (suc j), f) ∷ q) a =
      let (q', e, d, a') = ticks-due fuel (t + 1) n ((suc j, f) ∷ q) (omega arith, a.1) in
      let m = due-more t j f q in
      let run =
        ticks-suc call (suc (suc fuel)) t n ((suc (suc j), f) ∷ q) (tick-more (suc fuel) j f q) e in
      (q', run ∙ rw (shift t n, m) refl, rw m (rw (shift t n) at d), a')
