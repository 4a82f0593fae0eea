-- ===== src/Billing/Tariff.antt =====
-- The time-of-day tariff of billing.service.ts: which rule covers a minute, the price at a moment,
-- and the next moment at which some rule starts or ends.
pub mod Boundary
pub mod Uniform
pub mod Defaults
use charging_station_system.Prelude.{
  ℕ, ◌+◌, ◌-◌, ◌*◌, ◌/◌, ◌%◌, Bool, true, ◌&&◌, ◌||◌, Option, none, some, List, [], ◌∷◌, map,
  compare, ltb, leb, if◌then◌else◌, head?, or_else, find_by, sort_by,
}
use charging_station_system.Float.{Float, nat, ◌⊘◌}
use charging_station_system.Schema.{BillingRule, BillingPeriod, flat, peak, valley}

abbrev pub minute_ms : ℕ
minute_ms = 60_000

abbrev pub day_ms : ℕ
day_ms = 86_400_000

-- The server's zone is `zone` milliseconds east of UTC, without daylight saving.
-- `time.getHours() * 60 + time.getMinutes()`
unfoldable pub minute_of_day : ℕ → ℕ → ℕ
minute_of_day zone t = (t + zone) % day_ms / minute_ms

-- `setHours(boundary / 60, boundary % 60, 0, 0)` on the day of `t`, and a day later unless that is
-- after `t`.
unfoldable pub boundary_after : ℕ → ℕ → ℕ → ℕ
boundary_after zone t boundary =
    let local = t + zone in
    let next = local / day_ms * day_ms + boundary * minute_ms in
    (if leb next local then next + day_ms else next) - zone

module _ {F : Type 0} where
  unfoldable pub minute_in_rule : ℕ → BillingRule F → Bool
  minute_in_rule minute rule =
      if ltb rule.start_minute rule.end_minute
      then leb rule.start_minute minute && ltb minute rule.end_minute
      else leb rule.start_minute minute || ltb minute rule.end_minute

  abbrev pub boundaries : List (BillingRule F) → List ℕ
  boundaries [] = []
  boundaries (r ∷ rs) = r.start_minute ∷ r.end_minute ∷ boundaries rs

  -- `sort(...)[0]`, or an hour later without rules.
  unfoldable pub next_rule_boundary : ℕ → ℕ → List (BillingRule F) → ℕ
  next_rule_boundary zone t rules =
      or_else (head? (sort_by compare (map (boundary_after zone t) (boundaries rules))))
        (t + 3_600_000)

module _ {F : Type 0} ⦃fl : Float F⦄ where
  -- The price of the first rule that covers the minute, else 0.7.
  unfoldable pub price_at : ℕ → ℕ → List (BillingRule F) → F
  price_at zone t rules = elim (find_by (minute_in_rule (minute_of_day zone t)) rules) [
    | none ↦ nat 7 ⊘ nat 10
    | some rule ↦ rule.price
  ]

  abbrev default_rule : BillingPeriod → ℕ → ℕ → ℕ → BillingRule F
  default_rule period start end price_tenths = record {
    period = period;
    start_minute = start * 60;
    end_minute = end * 60;
    price = nat price_tenths ⊘ nat 10;
    service_fee_rate = nat 8 ⊘ nat 10;
    version = 1;
    active = true;
  }

  unfoldable pub default_rules : List (BillingRule F)
  default_rules =
      default_rule flat 7 10 7
      ∷ default_rule peak 10 15 10
      ∷ default_rule flat 15 18 7
      ∷ default_rule peak 18 21 10
      ∷ default_rule flat 21 23 7
      ∷ default_rule valley 23 7 4
      ∷ []
