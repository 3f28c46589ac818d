-- ===== src/Kernel/Wait/Tests.antt =====
-- The theorems on one wait queue at concrete tasks.
use linux_0_11_lab.Base.{[], arith, false, none, not, refl, some, true, ◌==◌, ◌∷◌, ◌≡◌}
use linux_0_11_lab.Kernel.Wait.{Waiting, resume, sleep_on, wake_up}
use linux_0_11_lab.Kernel.Wait.Drain.{AllIn, resume_all, sleep_all, wake_up_all}
use linux_0_11_lab.Kernel.Wait.Lost.{Reach, sleeper_lost}

abbrev nobody : Waiting
nobody = record { head = none; saved = []; runs = λ p. true }

-- Task 3 sleeps.
abbrev one_sleeper : Waiting
one_sleeper = record { head = some 3; saved = (3, none) ∷ []; runs = λ p. not (p == 3) }

sleeper_lost_example :
    (v u : Waiting) × (sleep_on 5 (wake_up one_sleeper) ≡ some v)
    × (resume 3 v ≡ some u)
    × ((u' : Waiting) → Reach u u' → u'.runs 5 ≡ false)
sleeper_lost_example = sleeper_lost 4 3 none [] one_sleeper refl refl (omega arith) (λ e. cc) tt

wake_up_all_example :
    (v u : Waiting) × (sleep_all (2 ∷ 6 ∷ 1 ∷ []) nobody ≡ some v)
    × (resume_all (2 ∷ 6 ∷ 1 ∷ []) (wake_up v) ≡ some u)
    × (u.head ≡ none)
    × (u.saved ≡ [])
    × AllIn (2 ∷ 6 ∷ 1 ∷ []) u.runs true
wake_up_all_example = wake_up_all 2 (6 ∷ 1 ∷ []) nobody (omega arith) refl refl
