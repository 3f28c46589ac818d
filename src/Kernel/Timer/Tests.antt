-- ===== src/Kernel/Timer/Tests.antt =====
-- The theorems on the timers at a concrete list, and a run.
use linux_0_11_lab.Base.{List, [], arith, refl, some, ◌++◌, ◌+◌, ◌∷◌, ◌≡◌, ◌≤◌}
use linux_0_11_lab.Base.Int.{pos}
use linux_0_11_lab.Kernel.Timer.{Fn, Timer, add_timer, added, insert, ticks}
use linux_0_11_lab.Kernel.Timer.Expire.{AllPos, after, by, ticks-due}
use linux_0_11_lab.Kernel.Timer.Insert.{add_timer-due, delay, due, earlier, not_earlier, residual}

abbrev quiet_call : Fn → List Timer → List Timer
quiet_call f q = q

abbrev two_timers : List Timer
two_timers = (3, 7) ∷ (4, 8) ∷ []

add_timer-due_example :
    (q' : List Timer) × (add_timer quiet_call (pos 5) (some 9) two_timers ≡ added q')
    × (due 0 q'
        ≡ earlier (0 + 5) (due 0 two_timers)
          ++ ((0 + 5, 9) ∷ delay (residual 5 two_timers) (not_earlier (0 + 5) (due 0 two_timers))))
    × (1 ≤ residual 5 two_timers)
add_timer-due_example = add_timer-due quiet_call 5 0 9 two_timers (omega arith) (omega arith)

-- The timer that was due in 7 ticks is due in 9 once one for 5 ticks is added.
timer_put_off : due 0 (insert 5 9 two_timers) ≡ (3, 7) ∷ (5, 9) ∷ (9, 8) ∷ []
unfolding insert due
timer_put_off = refl

ticks-due_example :
    (q' : List Timer) × (ticks quiet_call 4 10 5 two_timers
      ≡ some (by (10 + 5) (due 10 two_timers), q'))
    × (due (10 + 5) q' ≡ after (10 + 5) (due 10 two_timers))
    × AllPos q'
ticks-due_example = ticks-due quiet_call (λ f q. refl) 2 10 5 two_timers (omega arith)
