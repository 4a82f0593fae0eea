-- ===== src/Billing/Tariff/Defaults.antt =====
-- The rules that apply while the table holds none.
use charging_station_system.Prelude.{ℕ, ◌≡◌, ◌<◌, All, arith, count_by}
use charging_station_system.Float.{Float}
use charging_station_system.Billing.Tariff.{minute_in_rule, default_rules}
use charging_station_system.Billing.Tariff.Uniform.{InDay}

-- Every minute of the day falls under exactly one of the default rules.
pub default_rules_cover :
    (F : Type 0) ⦃fl : Float F⦄ (m : ℕ)
    → m < 1440
    → count_by (minute_in_rule m) (default_rules {F = F}) ≡ 1
unfolding minute_in_rule default_rules
default_rules_cover F m h = ground arith

pub default_rules-InDay : (F : Type 0) ⦃fl : Float F⦄ → All InDay (default_rules {F = F})
unfolding default_rules
default_rules-InDay F = omega arith
