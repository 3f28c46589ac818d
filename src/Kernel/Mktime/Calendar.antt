-- ===== src/Kernel/Mktime/Calendar.antt =====
-- kernel_mktime against the Gregorian calendar.
use linux_0_11_lab.Base.{
  ==_iff, Bool, [], arith, false, get_elem?, get_elem?-of_lt, get_or, if◌then◌else◌, ltb, not, refl,
  some, suc, true, zero, ℕ, ◌%◌, ◌&&◌, ◌*◌, ◌+◌, ◌-◌, ◌/◌, ◌<◌, ◌==◌, ◌||◌, ◌∷◌, ◌≡◌, ◌≤◌,
}
use native.Mathlib.Decide.{ℕ_discrete}
use linux_0_11_lab.Kernel.Mktime.{Tm, day, hour, kernel_mktime, minute, month, seconds, word, years}

-- Leap years of the Gregorian calendar.
pub is_leap : ℕ → Bool
is_leap y = (y % 4 == 0) && not (y % 100 == 0) || (y % 400 == 0)

pub days_in_month : Bool → ℕ → ℕ
days_in_month leap m =
    get_or (31 ∷ (if leap then 29 else 28) ∷ 31 ∷ 30 ∷ 31 ∷ 30 ∷ 31 ∷ 31 ∷ 30 ∷ 31 ∷ 30 ∷ 31 ∷ []) m
      0

-- The days of the first `m` months of a year, and of the first `n` years from 1970 on.
pub days_of_months : Bool → ℕ → ℕ
days_of_months leap zero = 0
days_of_months leap (suc m) = days_of_months leap m + days_in_month leap m

pub days_of_years : ℕ → ℕ
days_of_years zero = 0
days_of_years (suc n) = days_of_years n + (if is_leap (1970 + n) then 366 else 365)

-- The year of the Christian era that a two-digit or three-digit year stands for.
unfoldable pub full_year : ℕ → ℕ
full_year y = if ltb y 70 then 2000 + y else 1900 + y

is_leap_until_2099 : (n : ℕ) → n < 130 → is_leap (1970 + n) ≡ ((n + 2) % 4 == 0)
unfolding is_leap
is_leap_until_2099 n h = ground arith

days_of_years_lem : (n : ℕ) → n ≤ 130 → days_of_years n ≡ 365 * n + (n + 1) / 4
unfolding days_of_years
days_of_years_lem zero h = refl
days_of_years_lem (suc n) h = ground (arith, days_of_years_lem n, is_leap_until_2099 n)

month_table : Bool → ℕ → Bool
month_table leap m =
    (get_or month m 0 == day * (days_of_months leap m + (if ltb 1 m && not leap then 1 else 0)))

-- Both sides agree on the first `n` months.
agrees : Bool → ℕ → Bool
agrees leap zero = true
agrees leap (suc n) = if month_table leap n then agrees leap n else false

agrees_at : (leap : Bool) (n m : ℕ) → m < n → agrees leap n ≡ true → month_table leap m ≡ true
unfolding agrees
agrees_at leap zero m l h = absurd (omega arith)
agrees_at leap (suc n) m l h = elim (ℕ_discrete m n) [
  | yes e ↦ rw e (ground (arith, h))
  | no ne ↦ agrees_at leap n m (omega arith) (ground (arith, h))
]

month_lem :
    (leap : Bool) (m : ℕ)
    → m < 12
    → get_or month m 0 ≡ day * (days_of_months leap m + (if ltb 1 m && not leap then 1 else 0))
unfolding agrees month_table days_of_months days_in_month
month_lem true m h = (==_iff _ _).0 (agrees_at true 12 m h refl)
month_lem false m h = (==_iff _ _).0 (agrees_at false 12 m h refl)

pub days_since_1970 : ℕ → ℕ → ℕ → ℕ
days_since_1970 y m d = days_of_years (y - 1970) + days_of_months (is_leap y) (m - 1) + (d - 1)

get_elem?-get_or : (m : ℕ) → m < 12 → get_elem? month m ≡ some (get_or month m 0)
get_elem?-get_or m h = get_elem?-of_lt month m 0 h

seconds_lem :
    (n m : ℕ) (tm : Tm)
    → n < 130
    → m < 12
    → 1 ≤ tm.mday
    → seconds tm n m (get_or month m 0)
      ≡ (day * (days_of_years n + days_of_months (is_leap (1970 + n)) m + (tm.mday - 1))
          + hour * tm.hour
          + minute * tm.min
          + tm.sec)
        % word
unfolding seconds
seconds_lem n m tm h k d =
    ground (arith, days_of_years_lem n, month_lem (is_leap (1970 + n)) m, is_leap_until_2099 n)

years_lem : (y : ℕ) → full_year y ≡ 1970 + years y
unfolding years full_year
years_lem y = ground arith

-- For a date from 1970 to 2099 whose year is given by two digits (70 to 99, or 0 to 69 for the
-- years from 2000 on) or counted from 1900, kernel_mktime returns the seconds of the Gregorian
-- calendar from the start of 1970, modulo the 32 bits of its result.
pub kernel_mktime_lem :
    (tm : Tm)
    → full_year tm.year < 2100
    → 1 ≤ tm.mon
    → tm.mon ≤ 12
    → 1 ≤ tm.mday
    → (tm' : Tm) × (kernel_mktime tm
        ≡ some (
          (day * days_since_1970 (full_year tm.year) tm.mon tm.mday
                + hour * tm.hour
                + minute * tm.min
                + tm.sec)
              % word,
          tm',
        ))
unfolding kernel_mktime days_since_1970
kernel_mktime_lem tm y m1 m2 d =
    let z : (tm.mon == 0) ≡ false = ground arith in
    let n : full_year tm.year - 1970 ≡ years tm.year = omega (arith, years_lem tm.year) in
    (
      record tm { mon = tm.mon - 1; mday = (tm.mday + word - 1) % word },
      rw
          (
            z,
            get_elem?-get_or (tm.mon - 1) (omega arith),
            seconds_lem (years tm.year) (tm.mon - 1) tm (omega (arith, years_lem tm.year))
                (omega arith) d,
            n,
            years_lem tm.year,
          )
          refl,
    )
