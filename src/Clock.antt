-- ===== src/Clock.antt =====
-- The virtual clock, apps/server/src/common/clock.ts, and its routes in admin-dashboard.controller.ts. The
-- elapsed times are in Progress.
pub mod Forward
use charging_station_system.Prelude.{
  ℕ, Bool, ◌||◌, Option, none, some, List, [], ◌∷◌, if◌then◌else◌,
}
use charging_station_system.Float.{Float, nat, less, ◌⊕◌, ◌⊖◌, ◌⊗◌, ◌⊘◌}

-- The module's variables.
pub record ClockState (F : Type 0) : Type 0 where
  pub clock_speed : F
  pub base_real_ms : ℕ
  pub base_virtual_ms : F

module _ {F : Type 0} ⦃fl : Float F⦄ where
  -- `now` is `Date.now()`.
  unfoldable pub virtual_now_ms : ℕ → ClockState F → F
  virtual_now_ms now c = c.base_virtual_ms ⊕ (nat now ⊖ nat c.base_real_ms) ⊗ c.clock_speed

  -- `Math.max(0.1, Math.min(100, speed))`
  abbrev pub clamped : F → F
  clamped speed = fl.math_max (nat 1 ⊘ nat 10) (fl.math_min (nat 100) speed)

  unfoldable pub set_clock_speed : ℕ → F → ClockState F → ClockState F
  unfolding virtual_now_ms
  set_clock_speed now speed c = record {
    clock_speed = clamped speed;
    base_real_ms = now;
    base_virtual_ms = virtual_now_ms now c;
  }

  -- `speed || 1`, where 0 and NaN are replaced.
  abbrev pub or_one : F → F
  or_one speed = if less (nat 0) speed || less speed (nat 0) then speed else nat 1

  -- The handler of the route, on `Number(speed)`; the answer is the new speed.
  unfoldable pub set_clock_speed_handler : ℕ → F → ClockState F → F × ClockState F
  unfolding set_clock_speed
  set_clock_speed_handler now speed c =
      let c' = set_clock_speed now (clamped (or_one speed)) c in (c'.clock_speed, c')

  -- Requests for a new speed, each at a time.
  unfoldable pub change_all : List (ℕ × F) → ClockState F → ClockState F
  unfolding set_clock_speed_handler
  change_all [] c = c
  change_all ((now, speed) ∷ changes) c = change_all changes (set_clock_speed_handler now speed c).1
