-- ===== src/Dispatch/Trigger.antt =====
-- The triggers of dispatch.service.ts. Each asks the scheduler service, or the local strategy if the
-- service fails, and applies the answer.
use charging_station_system.Prelude.{
  ℕ, true, none, some, List, [], ◌∷◌, ◌++◌, map, if◌then◌else◌, take, length,
}
use charging_station_system.Float.{Float}
use charging_station_system.Schema.{
  ChargeMode, fast, slow, DispatchStrategyType, priority, time_order, is_charging, at_pile, Db,
}
use charging_station_system.Schema.Keys.{find_pile}
use charging_station_system.Station.{
  Env, Action, Applied, Request, SchedulerOrder, SchedulerAssignment, pure, or_raise, gets, emit,
  ◌>>=◌, ◌>>◌, not_found, basic_request, fault_request, single_request, batch_request,
  recovery_request, basic_lock, fault_lock, recovery_lock, dispatch_result, rescheduled, basic,
  single_optimization, batch_optimization, recovery_time_order, on_fault,
}
use charging_station_system.QueueCache.{refresh_mode, refresh_pile, refresh_all}
use charging_station_system.Dispatch.Strategy.{
  local_basic_dispatch, local_time_order_dispatch, local_batch_dispatch,
}
use charging_station_system.Dispatch.Queues.{
  waiting_orders, assigned_orders, assigned_orders_by_mode, pile_queues,
}
use charging_station_system.Dispatch.Assign.{apply_assignments}
use charging_station_system.Dispatch.Complete.{auto_complete_charging, wake_idle_piles}

module _ {F : Type 0} ⦃fl : Float F⦄ (env : Env F) where
  -- `safeSchedule(…)`, and `response.assignments ?? []`.
  unfoldable pub safe_schedule :
      Request F → List (SchedulerAssignment F) → List (SchedulerAssignment F)
  safe_schedule request fallback = elim (env.schedule request) [
    | none ↦ fallback
    | some answer ↦ elim answer [ none ↦ [] | some assignments ↦ assignments ]
  ]

  unfoldable pub trigger_basic : ChargeMode → Action F (List (Applied F))
  unfolding safe_schedule
  trigger_basic mode = do
    auto_complete_charging env
    orders ← gets (waiting_orders (some mode))
    piles ← gets (pile_queues (some mode) none at_pile)
    let assignments =
        safe_schedule (basic_request mode orders piles) (local_basic_dispatch orders piles)
    applied ← apply_assignments env (some mode) [] assignments
    refresh_mode mode true
    emit (dispatch_result basic (some mode) applied)
    pure applied

  -- The result is the list `dispatched`.
  unfoldable pub trigger_basic_all : Action F (List ChargeMode)
  unfolding trigger_basic
  trigger_basic_all =
      if env.lock basic_lock
      then (do
        auto_complete_charging env
        wake_idle_piles env
        trigger_basic fast
        trigger_basic slow
        pure (fast ∷ slow ∷ []))
      else pure []

  abbrev pub movable_orders :
      DispatchStrategyType
      → ℕ
      → ChargeMode
      → List (SchedulerOrder F)
      → Db F
      → List (SchedulerOrder F)
  movable_orders priority pile_id mode affected db = affected
  movable_orders time_order pile_id mode affected db =
      affected ++ assigned_orders_by_mode mode (some pile_id) db

  abbrev pub fault_plan :
      DispatchStrategyType
      → ℕ
      → ChargeMode
      → Db F
      → List (SchedulerOrder F)
      → List (SchedulerAssignment F)
  fault_plan priority pile_id mode db orders =
      let piles = pile_queues (some mode) (some pile_id) at_pile db in
      safe_schedule (fault_request priority pile_id orders piles)
        (local_basic_dispatch orders piles)
  fault_plan time_order pile_id mode db orders =
      let piles = pile_queues (some mode) (some pile_id) is_charging db in
      safe_schedule (fault_request time_order pile_id orders piles)
        (local_time_order_dispatch orders piles)

  unfoldable pub trigger_fault_reschedule : ℕ → DispatchStrategyType → Action F (List (Applied F))
  unfolding safe_schedule
  trigger_fault_reschedule pile_id strategy =
      if env.lock (fault_lock pile_id)
      then (do
        pile ← or_raise (← gets (λ db. find_pile pile_id db.piles)) not_found
        db ← gets (λ db. db)
        let orders = movable_orders strategy pile_id pile.pile_type (assigned_orders pile_id db) db
        applied ←
            apply_assignments env (some pile.pile_type) (map (λ o. o.order_id) orders)
              (fault_plan strategy pile_id pile.pile_type db orders)
        refresh_pile env.virtual_ms pile_id true
        emit (rescheduled pile_id strategy (length orders) (length applied))
        emit (dispatch_result (on_fault strategy) (some pile.pile_type) applied)
        pure applied)
      else pure []

  unfoldable pub trigger_single_optimization : ℕ → ChargeMode → Action F (List (Applied F))
  unfolding safe_schedule
  trigger_single_optimization spots mode = do
    waiting ← gets (waiting_orders (some mode))
    let orders = take spots waiting
    piles ← gets (pile_queues (some mode) none at_pile)
    applied ←
        apply_assignments env (some mode) [] (
          safe_schedule (single_request spots mode orders piles)
            (local_basic_dispatch orders piles))
    refresh_mode mode true
    emit (dispatch_result single_optimization (some mode) applied)
    pure applied

  unfoldable pub trigger_batch_optimization : ℕ → Action F (List (Applied F))
  unfolding safe_schedule
  trigger_batch_optimization spots = do
    waiting ← gets (waiting_orders none)
    let orders = take spots waiting
    piles ← gets (pile_queues none none at_pile)
    applied ←
        apply_assignments env none []
          (safe_schedule (batch_request spots orders piles) (local_batch_dispatch orders piles))
    refresh_all env.virtual_ms true
    emit (dispatch_result batch_optimization none applied)
    pure applied

  unfoldable pub trigger_recovery_reschedule : ℕ → Action F (List (Applied F))
  unfolding safe_schedule
  trigger_recovery_reschedule pile_id =
      if env.lock (recovery_lock pile_id)
      then (do
        pile ← or_raise (← gets (λ db. find_pile pile_id db.piles)) not_found
        piles ← gets (pile_queues (some pile.pile_type) none is_charging)
        orders ← gets (assigned_orders_by_mode pile.pile_type none)
        applied ← apply_assignments env (some pile.pile_type) (map (λ o. o.order_id) orders) (
            safe_schedule (recovery_request pile_id orders piles)
              (local_time_order_dispatch orders piles))
        emit (dispatch_result recovery_time_order (some pile.pile_type) applied)
        pure applied)
      else pure []
