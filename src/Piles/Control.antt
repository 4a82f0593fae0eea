-- ===== src/Piles/Control.antt =====
-- `recover` and `control` of pile.service.ts.
use charging_station_system.Prelude.{ℕ, Bool, true, false, Option, none, some, if◌then◌else◌}
use charging_station_system.Float.{Float}
use charging_station_system.Schema.{WorkingState, idle, is_on, is_idle, is_fault, Pile}
use charging_station_system.Schema.Keys.{find_pile}
use charging_station_system.Station.{
  Env, Action, pure, raise, or_raise, gets, ◌>>=◌, ◌>>◌, not_found, unsupported_action,
}
use charging_station_system.QueueCache.{refresh_pile}
use charging_station_system.Dispatch.Trigger.{trigger_basic, trigger_recovery_reschedule}
use charging_station_system.Piles.Power.{rewrite_pile, power_on, power_off}
use charging_station_system.Piles.Fault.{FaultReport, report_fault}

-- The actions that `control` knows; any other text is `other_action`.
pub data ControlAction : Type 0 where
  toggle_power report recover_pile other_action : ControlAction

-- `control` returns a pile or a fault report.
pub data Controlled (F : Type 0) : Type 0 where
  controlled_pile : Pile F → Controlled F
  reported : FaultReport F → Controlled F

module _ {F : Type 0} where
  abbrev pub set_idle : Pile F → Pile F
  set_idle p = record p { working_state = idle }

module _ {F : Type 0} ⦃fl : Float F⦄ (env : Env F) where
  abbrev pub reschedule_if_on : Pile F → Action F (Unit {0})
  reschedule_if_on p =
      if is_on p.physical_state
      then (do trigger_recovery_reschedule env p.id; trigger_basic env p.pile_type; pure tt)
      else pure tt

  unfoldable pub recover : ℕ → Action F (Pile F)
  recover pile_id = do
    pile ← or_raise (← gets (λ db. find_pile pile_id db.piles)) not_found
    rewrite_pile pile_id set_idle
    refresh_pile env.virtual_ms pile_id true
    reschedule_if_on (set_idle pile)
    pure (set_idle pile)

  abbrev pub toggle : ℕ → Pile F → Action F (Pile F)
  toggle pile_id p = if is_on p.physical_state then power_off env pile_id else power_on env pile_id

  abbrev pub wants_fault : ControlAction → Option WorkingState → Bool
  wants_fault report target = true
  wants_fault _ none = false
  wants_fault _ (some s) = is_fault s

  abbrev pub wants_idle : ControlAction → Option WorkingState → Bool
  wants_idle recover_pile target = true
  wants_idle _ none = false
  wants_idle _ (some s) = is_idle s

  abbrev pub control_state : ℕ → ControlAction → Option WorkingState → Action F (Controlled F)
  control_state pile_id action target =
      if wants_fault action target
      then (report_fault env pile_id >>= λ r. pure (reported r))
      else if wants_idle action target
      then (recover pile_id >>= λ p. pure (controlled_pile p))
      else raise unsupported_action

  unfoldable pub control : ℕ → ControlAction → Option WorkingState → Action F (Controlled F)
  unfolding recover
  control pile_id toggle_power target = do
    pile ← or_raise (← gets (λ db. find_pile pile_id db.piles)) not_found
    toggled ← toggle pile_id pile
    pure (controlled_pile toggled)
  control pile_id action target = control_state pile_id action target
