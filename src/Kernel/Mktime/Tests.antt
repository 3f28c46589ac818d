-- ===== src/Kernel/Mktime/Tests.antt =====
-- kernel_mktime at a concrete date.
use mathlib.Core.Option
use linux_0_11_lab.Base.{arith, refl, some, ℕ, ◌%◌, ◌*◌, ◌+◌, ◌≡◌}
use linux_0_11_lab.Kernel.Mktime.{Tm, day, hour, kernel_mktime, minute, seconds, word, years}
use linux_0_11_lab.Kernel.Mktime.Calendar.{days_since_1970, full_year, kernel_mktime_lem}

-- 1 March 2000, noon.
abbrev noon : Tm
noon = record { sec = 0; min = 0; hour = 12; mday = 1; mon = 3; year = 0 }

noon_seconds : Option.map (λ (r : ℕ × Tm). r.0) (kernel_mktime noon) ≡ some 951912000
unfolding kernel_mktime seconds years
noon_seconds = refl

kernel_mktime_lem_example :
    (tm' : Tm) × (kernel_mktime noon
      ≡ some ((day * days_since_1970 (full_year 0) 3 1 + hour * 12 + minute * 0 + 0) % word, tm'))
unfolding full_year
kernel_mktime_lem_example =
    kernel_mktime_lem noon (omega arith) (omega arith) (omega arith) (omega arith)
