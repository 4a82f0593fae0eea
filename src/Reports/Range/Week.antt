-- ===== src/Reports/Range/Week.antt =====
-- Where the ranges of the reports start.
use charging_station_system.Prelude.{ℕ, ◌+◌, ◌*◌, ◌≤◌, ◌<◌, ◌-◌, ◌%◌, ◌≡◌, ap, ◌∙◌, arith}
use charging_station_system.Billing.Tariff.{day_ms, minute_of_day}
use charging_station_system.Reports.Range.{week, day_number, week_day, midnight, range_start_for}

midnight_lem :
    (zone days : ℕ) → zone < day_ms → 1 ≤ days → midnight zone days + zone ≡ days * day_ms
midnight_lem zone days small late = omega arith

day_number-midnight :
    (zone days : ℕ) → zone < day_ms → 1 ≤ days → day_number zone (midnight zone days) ≡ days
day_number-midnight zone days small late = omega (arith, midnight_lem zone days small late)

minute_of_day-midnight :
    (zone days : ℕ) → zone < day_ms → 1 ≤ days → minute_of_day zone (midnight zone days) ≡ 0
unfolding minute_of_day
minute_of_day-midnight zone days small late = omega (arith, midnight_lem zone days small late)

monday_lem : (days : ℕ) → 7 ≤ days → week_day (days - (week_day days + 6) % 7) ≡ 1
monday_lem days late = omega arith

-- The range of a week starts on a Monday at midnight, not after the present moment and less than seven
-- days before it, for moments that are more than a week after the start of 1970.
pub week_start :
    (zone now : ℕ)
    → zone < day_ms
    → 7 * day_ms ≤ now
    → (range_start_for zone now week ≤ now)
      × (now < range_start_for zone now week + 7 * day_ms)
      × (minute_of_day zone (range_start_for zone now week) ≡ 0)
      × (week_day (day_number zone (range_start_for zone now week)) ≡ 1)
unfolding range_start_for minute_of_day
week_start zone now small late =
    let days = day_number zone now in
    let first = days - (week_day days + 6) % 7 in
    let one : 1 ≤ first = omega arith in
    (
      omega (arith, midnight_lem zone first small one),
      omega (arith, midnight_lem zone first small one),
      minute_of_day-midnight zone first small one,
      ap week_day (day_number-midnight zone first small one) ∙ monday_lem days (omega arith),
    )
