-- ===== src/App/Clock.antt =====
-- The calendar date of a day in crates/coding-agent-app/src/task_manager.rs, for days since
-- 1970-01-01: the clock is refused before it.
pub mod Calendar
use ngy_coding_agent.Base.{ℕ, ◌+◌, ◌-◌, ◌*◌, ◌/◌, ltb, leb, if◌then◌else◌}

-- `month_prime` is the month counted from March, `year` the year that began in March.
unfoldable pub month_of : ℕ → ℕ
month_of month_prime = if ltb month_prime 10 then month_prime + 3 else month_prime - 9

unfoldable pub from_march : ℕ → ℕ → ℕ × ℕ × ℕ
unfolding month_of
from_march year day_of_year =
    let month_prime = (5 * day_of_year + 2) / 153 in
    let day = day_of_year - (153 * month_prime + 2) / 5 + 1 in
    let month = month_of month_prime in (if leb month 2 then year + 1 else year, month, day)

unfoldable pub year_of_era : ℕ → ℕ
year_of_era day_of_era =
    (day_of_era - day_of_era / 1_460 + day_of_era / 36_524 - day_of_era / 146_096) / 365

unfoldable pub from_era : ℕ → ℕ → ℕ × ℕ × ℕ
unfolding year_of_era from_march
from_era era day_of_era =
    let y = year_of_era day_of_era in
    from_march (y + era * 400) (day_of_era - (365 * y + y / 4 - y / 100))

unfoldable pub civil_from_days : ℕ → ℕ × ℕ × ℕ
unfolding from_era
civil_from_days days_since_epoch =
    let days = days_since_epoch + 719_468 in
    let era = days / 146_097 in from_era era (days - era * 146_097)
