-- ===== src/Reports/Range.antt =====
-- `rangeStartFor` of report.service.ts: the start of the day, of the week or of the month, in the
-- server's zone, which is `zone` milliseconds east of UTC.
pub mod Week
use charging_station_system.Prelude.{ℕ, ◌+◌, ◌-◌, ◌*◌, ◌/◌, ◌%◌}
use charging_station_system.Billing.Tariff.{day_ms}

pub data TimeType : Type 0 where
  day week month : TimeType

-- The number of the day, from the first of January 1970.
abbrev pub day_number : ℕ → ℕ → ℕ
day_number zone t = (t + zone) / day_ms

-- `getDay()`: that day was a Thursday, which is 4.
abbrev pub week_day : ℕ → ℕ
week_day days = (days + 4) % 7

-- `getDate()` in the Gregorian calendar, by the day of the 400 years that begin in a March.
unfoldable pub day_of_month : ℕ → ℕ
day_of_month days =
    let of_era = (days + 719_468) % 146_097 in
    let year = (of_era - of_era / 1460 + of_era / 36_524 - of_era / 146_096) / 365 in
    let of_year = of_era - (365 * year + year / 4 - year / 100) in
    let from_march = (5 * of_year + 2) / 153 in of_year - (153 * from_march + 2) / 5 + 1

-- The first moment of a day.
abbrev pub midnight : ℕ → ℕ → ℕ
midnight zone days = days * day_ms - zone

unfoldable pub range_start_for : ℕ → ℕ → TimeType → ℕ
unfolding day_of_month
range_start_for zone now day = midnight zone (day_number zone now)
range_start_for zone now week =
    let days = day_number zone now in midnight zone (days - (week_day days + 6) % 7)
range_start_for zone now month =
    let days = day_number zone now in midnight zone (days - (day_of_month days - 1))
