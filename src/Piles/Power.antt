-- ===== src/Piles/Power.antt =====
-- `powerOn` and `powerOff` of pile.service.ts.
use charging_station_system.Prelude.{ℕ, true, not, if◌then◌else◌, is_some, find_by}
use charging_station_system.Float.{Float}
use charging_station_system.Schema.{
  PhysicalState, on, off, WorkingState, idle, fault, is_fault, Pile,
}
use charging_station_system.Schema.Keys.{find_pile, set_pile}
use charging_station_system.Schema.Queries.{charging_on}
use charging_station_system.Station.{
  Env, Action, pure, raise_if, or_raise, gets, modify, ◌>>=◌, ◌>>◌, not_found, pile_is_charging,
}
use charging_station_system.QueueCache.{refresh_pile}
use charging_station_system.Dispatch.Trigger.{trigger_basic}

-- `FAULT` stays, anything else becomes `IDLE`.
abbrev pub next_working_state : WorkingState → WorkingState
next_working_state s = if is_fault s then fault else idle

module _ {F : Type 0} where
  abbrev pub set_power : PhysicalState → Pile F → Pile F
  set_power state p = record p {
    physical_state = state;
    working_state = next_working_state p.working_state;
  }

  abbrev pub rewrite_pile : ℕ → (Pile F → Pile F) → Action F (Unit {0})
  rewrite_pile i f = modify (λ db. record db { piles = set_pile i f db.piles })

module _ {F : Type 0} ⦃fl : Float F⦄ (env : Env F) where
  abbrev pub dispatch_unless_fault : Pile F → Action F (Unit {0})
  dispatch_unless_fault p =
      if not (is_fault p.working_state)
      then (trigger_basic env p.pile_type >>= λ _. pure tt)
      else pure tt

  unfoldable pub power_on : ℕ → Action F (Pile F)
  power_on pile_id = do
    current ← or_raise (← gets (λ db. find_pile pile_id db.piles)) not_found
    rewrite_pile pile_id (set_power on)
    refresh_pile env.virtual_ms pile_id true
    dispatch_unless_fault (set_power on current)
    pure (set_power on current)

  unfoldable pub power_off : ℕ → Action F (Pile F)
  power_off pile_id = do
    current ← or_raise (← gets (λ db. find_pile pile_id db.piles)) not_found
    charging ← gets (λ db. is_some (find_by (charging_on pile_id) db.orders))
    raise_if charging pile_is_charging
    rewrite_pile pile_id (set_power off)
    refresh_pile env.virtual_ms pile_id true
    pure (set_power off current)
