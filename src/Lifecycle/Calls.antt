-- ===== src/Lifecycle/Calls.antt =====
-- Sequences of calls that users, operators and the timer make, in any order, each with its own clock,
-- scheduler answers and locks.
use charging_station_system.Prelude.{
  ℕ, ◌≡◌, true, false, Option, none, some, List, [], ◌∷◌, arith, find_by,
}
use charging_station_system.Float.{Float}
use charging_station_system.Schema.{
  Codes, ChargeMode, OrderStatus, is_terminal, is_charging, WorkingState, DispatchStrategyType,
  Order,
}
use charging_station_system.Schema.Keys.{find_order}
use charging_station_system.Schema.Queries.{active_on}
use charging_station_system.Station.{World, Env}
use charging_station_system.Charging.Status.{queue_status}
use charging_station_system.Charging.Submit.{SubmitChargingRequest, submit_request}
use charging_station_system.Charging.Orders.{modify_mode, modify_amount, cancel, start, stop}
use charging_station_system.Piles.Power.{power_on, power_off}
use charging_station_system.Piles.Fault.{report_fault}
use charging_station_system.Piles.Views.{list_piles}
use charging_station_system.Piles.Control.{ControlAction, recover, control}
use charging_station_system.Dispatch.Trigger.{
  trigger_basic, trigger_basic_all, trigger_fault_reschedule, trigger_single_optimization,
  trigger_batch_optimization, trigger_recovery_reschedule,
}
use charging_station_system.Lifecycle.Statuses.{may_become, Evolves, found-Later}
use charging_station_system.Lifecycle.Valid.{
  charging_in, no_session, IsValid, Advances, Advances-IsPreorder,
}
use charging_station_system.Lifecycle.Triggers.{
  trigger_basic-Moves, trigger_fault-Moves, trigger_single-Moves, trigger_batch-Moves,
  trigger_recovery-Moves, trigger_all-Moves,
}
use charging_station_system.Lifecycle.Requests.{
  status-Moves, submit-Moves, modify_mode-Moves, modify_amount-Moves,
}
use charging_station_system.Lifecycle.Charges.{cancel-Moves, start-Moves, stop-Moves}
use charging_station_system.Lifecycle.Faults.{
  list_piles-Moves, power_on-Moves, power_off-Moves, report_fault-Moves, recover-Moves,
  control-Moves,
}

ended_same : (s t : OrderStatus) → is_terminal s ≡ true → may_become s t ≡ true → t ≡ s
ended_same s t h k = ground arith

ended_off : (s : OrderStatus) → is_terminal s ≡ true → is_charging s ≡ false
ended_off s h = ground arith

pub data Call (F : Type 0) : Type 0 where
  submit_call : SubmitChargingRequest F → Option ℕ → Call F
  status_call : ℕ → Option ℕ → Call F
  mode_call : ℕ → ChargeMode → Option ℕ → Call F
  amount_call : ℕ → F → Option ℕ → Call F
  cancel_call : ℕ → Option Codes → Option ℕ → Call F
  start_call stop_call : ℕ → Option ℕ → Call F
  power_on_call power_off_call fault_call recover_call : ℕ → Call F
  control_call : ℕ → ControlAction → Option WorkingState → Call F
  basic_call : ChargeMode → Call F
  reschedule_call : ℕ → DispatchStrategyType → Call F
  single_call : ℕ → ChargeMode → Call F
  batch_call recovery_call : ℕ → Call F
  tick_call list_call : Call F

module _ {F : Type 0} ⦃fl : Float F⦄ where
  -- The world after the call, whether it returned or threw.
  unfoldable pub perform : Env F → Call F → World F → World F
  perform env (submit_call dto user) w = (submit_request env dto user w).1
  perform env (status_call i user) w = (queue_status env i user w).1
  perform env (mode_call i mode user) w = (modify_mode env i mode user w).1
  perform env (amount_call i amount user) w = (modify_amount env i amount user w).1
  perform env (cancel_call i reason user) w = (cancel env i reason user w).1
  perform env (start_call i user) w = (start env i user w).1
  perform env (stop_call i user) w = (stop env i user w).1
  perform env (power_on_call i) w = (power_on env i w).1
  perform env (power_off_call i) w = (power_off env i w).1
  perform env (fault_call i) w = (report_fault env i w).1
  perform env (recover_call i) w = (recover env i w).1
  perform env (control_call i action target) w = (control env i action target w).1
  perform env (basic_call mode) w = (trigger_basic env mode w).1
  perform env (reschedule_call i strategy) w = (trigger_fault_reschedule env i strategy w).1
  perform env (single_call spots mode) w = (trigger_single_optimization env spots mode w).1
  perform env (batch_call spots) w = (trigger_batch_optimization env spots w).1
  perform env (recovery_call i) w = (trigger_recovery_reschedule env i w).1
  perform env tick_call w = (trigger_basic_all env w).1
  perform env list_call w = (list_piles env w).1

  unfoldable pub perform_all : List (Env F × Call F) → World F → World F
  unfolding perform
  perform_all [] w = w
  perform_all ((env, c) ∷ calls) w = perform_all calls (perform env c w)

  pub perform-Advances :
      (env : Env F) (c : Call F) (w : World F) → Advances w.db (perform env c w).db
  unfolding perform
  perform-Advances env (submit_call dto user) w = (submit-Moves env dto user w).at_end
  perform-Advances env (status_call i user) w = (status-Moves env i user w).at_end
  perform-Advances env (mode_call i mode user) w = (modify_mode-Moves env i mode user w).at_end
  perform-Advances env (amount_call i amount user) w =
      (modify_amount-Moves env i amount user w).at_end
  perform-Advances env (cancel_call i reason user) w = (cancel-Moves env i reason user w).at_end
  perform-Advances env (start_call i user) w = (start-Moves env i user w).at_end
  perform-Advances env (stop_call i user) w = (stop-Moves env i user w).at_end
  perform-Advances env (power_on_call i) w = (power_on-Moves env i w).at_end
  perform-Advances env (power_off_call i) w = (power_off-Moves env i w).at_end
  perform-Advances env (fault_call i) w = (report_fault-Moves env i w).at_end
  perform-Advances env (recover_call i) w = (recover-Moves env i w).at_end
  perform-Advances env (control_call i action target) w =
      (control-Moves env i action target w).at_end
  perform-Advances env (basic_call mode) w = (trigger_basic-Moves env mode w).at_end
  perform-Advances env (reschedule_call i strategy) w =
      (trigger_fault-Moves env i strategy w).at_end
  perform-Advances env (single_call spots mode) w = (trigger_single-Moves env spots mode w).at_end
  perform-Advances env (batch_call spots) w = (trigger_batch-Moves env spots w).at_end
  perform-Advances env (recovery_call i) w = (trigger_recovery-Moves env i w).at_end
  perform-Advances env tick_call w = (trigger_all-Moves env w).at_end
  perform-Advances env list_call w = (list_piles-Moves env w).at_end

  perform_all-Advances :
      (calls : List (Env F × Call F)) (w : World F) → Advances w.db (perform_all calls w).db
  unfolding perform_all
  perform_all-Advances [] w = Advances-IsPreorder.reflexive w.db
  perform_all-Advances ((env, c) ∷ calls) w =
      Advances-IsPreorder.transitive w.db (perform env c w).db _ (perform-Advances env c w)
        (perform_all-Advances calls (perform env c w))

  -- Whatever calls are made, with whatever clocks, scheduler answers and locks, and whether they return
  -- or throw: from tables that satisfy the invariant (distinct keys below the next fresh one, every
  -- active session linked to a charging order, at most one active session for each order) tables come
  -- about that satisfy it, and every order is still there with its key, user and submit time, and with
  -- a status that it may have reached from the one it had.
  pub perform_all-IsValid :
      (calls : List (Env F × Call F)) (w : World F)
      → IsValid w.db
      → IsValid (perform_all calls w).db × Evolves w.db.orders (perform_all calls w).db.orders
  perform_all-IsValid calls w v = perform_all-Advances calls w v

  -- An order that has ended stays as it ended, whatever calls are made: it is still there, with the same
  -- status, owner and submit time, and with no active session.
  pub perform_all-ended :
      (calls : List (Env F × Call F)) (w : World F) (i : ℕ) (o : Order F)
      → IsValid w.db
      → find_order i w.db.orders ≡ some o
      → is_terminal o.status ≡ true
      → (o' : Order F) × (find_order i (perform_all calls w).db.orders ≡ some o')
        × (o'.status ≡ o.status)
        × (o'.user_id ≡ o.user_id)
        × (o'.submit_time ≡ o.submit_time)
        × (find_by (active_on i) (perform_all calls w).db.sessions ≡ none)
  perform_all-ended calls w i o v e ended =
      let (v', grown) = perform_all-IsValid calls w v in
      let db' = (perform_all calls w).db in
      let (o', e', later) = found-Later i w.db.orders db'.orders o grown e in
      let same = ended_same o.status o'.status ended later.forward in
      let off : charging_in db'.orders i ≡ false = rw e' (rw same (ended_off o.status ended)) in
      (
        o',
        e',
        same,
        later.same_user,
        later.same_submit_time,
        no_session db'.orders i db'.sessions v'.linked off,
      )
