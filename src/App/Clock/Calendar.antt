-- ===== src/App/Clock/Calendar.antt =====
-- The date of a day in crates/coding-agent-app/src/task_manager.rs against the Gregorian calendar.
use ngy_coding_agent.Base.{
  ℕ, ◌+◌, ◌-◌, ◌*◌, ◌/◌, ◌%◌, ◌≤◌, ◌<◌, ◌≡◌, refl, subst, Bool, true, not, ◌&&◌, ◌||◌, leb, ◌==◌,
  if◌then◌else◌, arith,
}
use ngy_coding_agent.App.Clock.{month_of, from_march, year_of_era, from_era, civil_from_days}

-- The days before a month, from March on.
before : ℕ → ℕ
before m =
    if m == 3
    then 0
    else if m == 4
    then 31
    else if m == 5
    then 61
    else if m == 6
    then 92
    else if m == 7
    then 122
    else if m == 8
    then 153
    else if m == 9
    then 184
    else if m == 10
    then 214
    else if m == 11
    then 245
    else if m == 12
    then 275
    else if m == 1
    then 306
    else 337

-- The days before a year that begins in March, from the March of year 0 on.
before_year : ℕ → ℕ
before_year y = 365 * y + y / 4 - y / 100 + y / 400

march_year : ℕ → ℕ → ℕ
march_year y m = if leb m 2 then y - 1 else y

-- The days before a date, from the March of year 0 on.
ordinal : ℕ × ℕ × ℕ → ℕ
unfolding before before_year march_year
ordinal (y, m, d) = before_year (march_year y m) + before m + (d - 1)

is_leap : ℕ → Bool
is_leap y = y % 4 == 0 && not (y % 100 == 0) || y % 400 == 0

month_length : ℕ → ℕ → ℕ
unfolding is_leap
month_length y m =
    if m == 2
    then (if is_leap y then 29 else 28)
    else if m == 4 || m == 6 || m == 9 || m == 11
    then 30
    else 31

IsDate : ℕ × ℕ × ℕ → Type 0
IsDate (y, m, d) = (1 ≤ m) × (m ≤ 12) × (1 ≤ d) × (d ≤ month_length y m)

low :
    (e y : ℕ)
    → e < 146_097
    → y ≡ (e - e / 1_460 + e / 36_524 - e / 146_096) / 365
    → 365 * y + y / 4 - y / 100 ≤ e
low e y p q = omega (arith, p, q)

high :
    (e y : ℕ)
    → e < 146_097
    → y ≡ (e - e / 1_460 + e / 36_524 - e / 146_096) / 365
    → e ≤ 365 * y + y / 4 - y / 100 + 365
high e y p q = omega (arith, p, q)

small : (e y : ℕ) → e < 146_097 → y ≡ (e - e / 1_460 + e / 36_524 - e / 146_096) / 365 → y < 400
small e y p q = omega (arith, p, q)

before_year_lem :
    (y n : ℕ) → y < 400 → before_year (y + n * 400) ≡ 146_097 * n + (365 * y + y / 4 - y / 100)
unfolding before_year
before_year_lem y n p = omega (arith, p)

same_day :
    (n e y : ℕ)
    → e < 146_097
    → y ≡ (e - e / 1_460 + e / 36_524 - e / 146_096) / 365
    → before_year (y + n * 400) + (e - (365 * y + y / 4 - y / 100)) ≡ 146_097 * n + e
same_day n e y p q = omega (arith, before_year_lem y n (small e y p q), low e y p q)

month_lem : (d m : ℕ) → d ≤ 365 → m ≡ (5 * d + 2) / 153 → (153 * m + 2) / 5 ≤ d
month_lem d m p q = omega (arith, p, q)

day_lem : (d m : ℕ) → d ≤ 365 → m ≡ (5 * d + 2) / 153 → d - (153 * m + 2) / 5 ≤ 30
day_lem d m p q = omega (arith, p, q)

month_of_lem : (m : ℕ) → m < 12 → before (month_of m) ≡ (153 * m + 2) / 5
unfolding before month_of
month_of_lem m p = ground (arith, p)

-- A year that begins in March has a day 365 when the February at its end is long.
leap_lem :
    (e y n : ℕ)
    → e < 146_097
    → y ≡ (e - e / 1_460 + e / 36_524 - e / 146_096) / 365
    → e ≡ 365 * y + y / 4 - y / 100 + 365
    → is_leap (y + n * 400 + 1) ≡ true
unfolding is_leap
leap_lem e y n p q h = ground (arith, p, q, h)

march_valid :
    (year d m : ℕ)
    → d ≤ 365
    → m ≡ (5 * d + 2) / 153
    → (d ≡ 365 → is_leap (year + 1) ≡ true)
    → IsDate (if leb (month_of m) 2 then year + 1 else year, month_of m, d - (153 * m + 2) / 5 + 1)
unfolding month_of month_length IsDate
march_valid year d m p q h =
    (ground (arith, p, q), ground (arith, p, q), omega arith, ground (arith, p, q, h))

march_year_lem : (year m : ℕ) → march_year (if leb m 2 then year + 1 else year) m ≡ year
unfolding march_year
march_year_lem year m = ground arith

march_ordinal :
    (year d m : ℕ)
    → d ≤ 365
    → m ≡ (5 * d + 2) / 153
    → ordinal (if leb (month_of m) 2 then year + 1 else year, month_of m, d - (153 * m + 2) / 5 + 1)
      ≡ before_year year + d
unfolding ordinal
march_ordinal year d m p q =
    rw (march_year_lem year (month_of m))
      (rw (month_of_lem m (omega (arith, p, q))) (omega (arith, p, q)))

-- A valid date, up to which there are so many days.
pub IsCivil : ℕ → ℕ × ℕ × ℕ → Type 0
IsCivil days date = IsDate date × (ordinal date ≡ days)

from_march-IsCivil :
    (year d : ℕ)
    → d ≤ 365
    → (d ≡ 365 → is_leap (year + 1) ≡ true)
    → IsCivil (before_year year + d) (from_march year d)
unfolding from_march IsCivil
from_march-IsCivil year d p h = (
  march_valid year d ((5 * d + 2) / 153) p refl h,
  march_ordinal year d ((5 * d + 2) / 153) p refl,
)

from_era-IsCivil : (n e : ℕ) → e < 146_097 → IsCivil (146_097 * n + e) (from_era n e)
unfolding from_era year_of_era
from_era-IsCivil n e p =
    let y = (e - e / 1_460 + e / 36_524 - e / 146_096) / 365 in
    let d = e - (365 * y + y / 4 - y / 100) in
    subst (λ x. IsCivil x (from_march (y + n * 400) d)) (same_day n e y p refl)
      (from_march-IsCivil (y + n * 400) d (omega (arith, high e y p refl))
        (λ h. leap_lem e y n p refl (omega (arith, h, low e y p refl))))

-- The date of a day since 1970-01-01 is a date of the Gregorian calendar, with the length of its
-- month and its leap year, and the days of the years and months before it, counted from the March
-- of year 0, are the days since 1970-01-01 and 719468 more.
pub civil_from_days-IsCivil : (n : ℕ) → IsCivil (n + 719_468) (civil_from_days n)
unfolding civil_from_days
civil_from_days-IsCivil n =
    let days = n + 719_468 in
    subst (λ x. IsCivil x (from_era (days / 146_097) (days - days / 146_097 * 146_097)))
      (omega arith)
      (from_era-IsCivil (days / 146_097) (days - days / 146_097 * 146_097) (omega arith))
