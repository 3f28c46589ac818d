-- ===== src/Kernel/Mktime.antt =====
-- linux-0.11/kernel/mktime.c. The fields of `struct tm` are not negative, and sums are words of 32
-- bits. `none` is a read outside of `month[12]`.
pub mod Calendar
mod Tests
use mathlib.Core.Option
use linux_0_11_lab.Base.{
  List, Option, [], get_elem?, if◌then◌else◌, leb, ltb, none, not, ℕ, ◌%◌, ◌&&◌, ◌*◌, ◌+◌, ◌-◌, ◌/◌,
  ◌==◌, ◌^◌, ◌∷◌,
}

pub record Tm : Type 0 where
  pub sec : ℕ
  pub min : ℕ
  pub hour : ℕ
  pub mday : ℕ
  pub mon : ℕ
  pub year : ℕ

abbrev pub minute : ℕ
minute = 60

abbrev pub hour : ℕ
hour = 60 * minute

abbrev pub day : ℕ
day = 24 * hour

abbrev pub year : ℕ
year = 365 * day

abbrev pub month : List ℕ
month =
    0
    ∷ day * 31
    ∷ day * (31 + 29)
    ∷ day * (31 + 29 + 31)
    ∷ day * (31 + 29 + 31 + 30)
    ∷ day * (31 + 29 + 31 + 30 + 31)
    ∷ day * (31 + 29 + 31 + 30 + 31 + 30)
    ∷ day * (31 + 29 + 31 + 30 + 31 + 30 + 31)
    ∷ day * (31 + 29 + 31 + 30 + 31 + 30 + 31 + 31)
    ∷ day * (31 + 29 + 31 + 30 + 31 + 30 + 31 + 31 + 30)
    ∷ day * (31 + 29 + 31 + 30 + 31 + 30 + 31 + 31 + 30 + 31)
    ∷ day * (31 + 29 + 31 + 30 + 31 + 30 + 31 + 31 + 30 + 31 + 30)
    ∷ []

abbrev pub word : ℕ
word = 2 ^ 32

-- Years since 1970.
pub years : ℕ → ℕ
years y = if leb 70 y then y - 70 else y + 100 - 70

-- The seconds, once `tm_mon` has been found in the table; `base` is `month[tm_mon]`.
pub seconds : Tm → ℕ → ℕ → ℕ → ℕ
seconds tm n mon base =
    let res = year * n + day * ((n + 1) / 4) + base in
    let res = if ltb 1 mon && not ((n + 2) % 4 == 0) then res - day else res in
    (res + day * ((tm.mday + word - 1) % word) + hour * tm.hour + minute * tm.min + tm.sec) % word

-- The time, and the structure, whose month and day the function counts down.
pub kernel_mktime : Tm → Option (ℕ × Tm)
kernel_mktime tm =
    if tm.mon == 0
    then none
    else Option.map
        (λ base. (
          seconds tm (years tm.year) (tm.mon - 1) base,
          record tm { mon = tm.mon - 1; mday = (tm.mday + word - 1) % word },
        ))
        (get_elem? month (tm.mon - 1))
