-- ===== src/Progress.antt =====
-- How far a charge has come: apps/server/src/common/charging.ts, with `virtualElapsedHours` of
-- apps/server/src/common/clock.ts.
use charging_station_system.Prelude.{ℕ, Bool, ◌||◌, not, Option, none, some, if◌then◌else◌}
use charging_station_system.Float.{Float, nat, ◌⊖◌, ◌⊗◌, ◌⊘◌, round_to, hours_of}
use charging_station_system.Schema.{OrderStatus, is_charging, Session}

module _ {F : Type 0} ⦃fl : Float F⦄ where
  unfoldable pub virtual_elapsed_ms : F → ℕ → F
  virtual_elapsed_ms now since = fl.math_max (nat 0) (now ⊖ nat since)

  unfoldable pub virtual_elapsed_hours : F → ℕ → F
  unfolding virtual_elapsed_ms
  virtual_elapsed_hours now since = hours_of (virtual_elapsed_ms now since)

  abbrev non_positive : F → Bool
  non_positive x = fl.at_least (nat 0) x

  -- The session is the first of the order's active sessions, if it has one.
  unfoldable pub delivered_amount : F → OrderStatus → Option (Session F) → F → F
  delivered_amount now status session pile_power =
      if not (is_charging status) || non_positive pile_power then nat 0 else elim session [
        | none ↦ nat 0
        | some s ↦ round_to 10_000 (virtual_elapsed_hours now s.start_time ⊗ pile_power)
      ]

  unfoldable pub charging_progress : F → OrderStatus → F → Option (Session F) → F → F
  unfolding delivered_amount
  charging_progress now status requested session pile_power =
      if not (is_charging status) || (non_positive requested || non_positive pile_power)
      then nat 0
      else elim session [
        | none ↦ nat 0
        | some s ↦ fl.math_min (nat 100) (
            fl.math_round ((delivered_amount now status (some s) pile_power ⊘ requested) ⊗ nat 1000)
            ⊘ nat 10)
      ]
