-- ===== src/Charging/Orders.antt =====
-- What an owner does with an order in charging.service.ts: `modifyMode`, `modifyAmount`, `cancel`,
-- `start` and `stop`.
pub mod Head
use charging_station_system.Prelude.{
  ℕ, Bool, true, false, not, ◌&&◌, ◌==◌, ltb, Option, none, some, if◌then◌else◌, or_else, is_some,
  find_by, codes, eq_codes,
}
use charging_station_system.Float.{Float, nat}
use charging_station_system.Schema.{
  Codes, ChargeMode, eq_mode, OrderStatus, is_waiting, is_queued, is_charging, is_on, is_idle, idle,
  Order, Pile, Detail, Db,
}
use charging_station_system.Schema.Keys.{find_order, find_pile, set_order}
use charging_station_system.Schema.Queries.{queued_on}
use charging_station_system.Station.{
  Env, Action, pure, raise, raise_if, or_raise, gets, modify, ◌>>=◌, ◌>>◌, not_found, not_waiting,
  not_at_head, pile_not_available, not_charging, cannot_cancel, unique_violation,
}
use charging_station_system.QueueCache.{refresh_mode, refresh_pile}
use charging_station_system.Billing.Close.{Closing, close_and_bill}
use charging_station_system.Dispatch.Assign.{begin_charge}
use charging_station_system.Dispatch.Trigger.{trigger_basic}
use charging_station_system.Charging.Status.{
  QueueStatus, waiting_area, pile_queue_area, to_queue_status, ensure_order_owner, queue_status,
}
use charging_station_system.Charging.Submit.{next_queue_no, number_taken}

abbrev pub user_stop : Codes
user_stop = codes "USER_STOP"

abbrev pub fault_reason : Codes
fault_reason = codes "FAULT"

-- A charge that a user ends, by the reason given.
abbrev pub stop_closing : Closing
stop_closing = record {
  stop_reason = user_stop;
  target_status = OrderStatus.finished;
  pile_working_state = idle;
}

abbrev pub is_user_stop : Option Codes → Bool
is_user_stop none = false
is_user_stop (some reason) = eq_codes reason user_stop

abbrev pub cancel_closing : Option Codes → Closing
cancel_closing reason = record {
  stop_reason = or_else reason fault_reason;
  target_status = if is_user_stop reason then OrderStatus.finished else OrderStatus.aborted;
  pile_working_state = idle;
}

-- What `cancel` returns: the order's status, or its bill.
pub data Canceled (F : Type 0) : Type 0 where
  canceled_status : QueueStatus F → Canceled F
  billed : Detail F → Canceled F

-- What `start` returns.
pub record Started : Type 0 where
  pub order_id : ℕ
  pub session_id : ℕ
  pub pile_id : ℕ

module _ {F : Type 0} where
  unfoldable pub require_waiting_order : ℕ → Action F (Order F)
  require_waiting_order order_id = do
    o ← or_raise (← gets (λ db. find_order order_id db.orders)) not_found
    raise_if (not (is_waiting o.status)) not_waiting
    pure o

  abbrev pub rewrite_order : ℕ → (Order F → Order F) → Action F (Unit {0})
  rewrite_order i f = modify (λ db. record db { orders = set_order i f db.orders })

  abbrev pub set_mode : ChargeMode → Codes → Order F → Order F
  set_mode mode number o = record o { charge_mode = mode; queue_no = number }

  abbrev pub set_amount : F → Order F → Order F
  set_amount amount o = record o { requested_amount = amount }

  abbrev pub cancel_waiting : ℕ → Order F → Order F
  cancel_waiting now o = record o {
    status = OrderStatus.canceled;
    assigned_pile_id = none;
    finished_at = some now;
  }

  abbrev pub cancel_queued : ℕ → Order F → Order F
  cancel_queued now o = record o {
    status = OrderStatus.canceled;
    assigned_pile_id = none;
    pile_queue_entered_at = none;
    finished_at = some now;
  }

  -- The order that `start` looks for in front of another: it entered the pile's queue before, or it
  -- has no entry time and was submitted before.
  abbrev pub is_earlier : ℕ → Order F → Order F → Bool
  is_earlier pile_id o x =
      queued_on pile_id x
      && (not (x.id == o.id) && elim x.pile_queue_entered_at [
        | some t ↦ ltb t (or_else o.pile_queue_entered_at o.submit_time)
        | none ↦ ltb x.submit_time o.submit_time
      ])

  abbrev pub can_start_on : Pile F → Bool
  can_start_on p = is_on p.physical_state && is_idle p.working_state

module _ {F : Type 0} ⦃fl : Float F⦄ (env : Env F) where
  abbrev pub change_mode : Order F → ChargeMode → Action F (QueueStatus F)
  change_mode o mode = do
    number ← gets (next_queue_no mode)
    taken ← gets (λ db. number_taken number db.orders)
    raise_if taken unique_violation
    rewrite_order o.id (set_mode mode number)
    refresh_mode o.charge_mode true
    refresh_mode mode true
    queue_status env o.id none

  unfoldable pub modify_mode : ℕ → ChargeMode → Option ℕ → Action F (QueueStatus F)
  unfolding ensure_order_owner require_waiting_order
  modify_mode order_id mode user = do
    ensure_order_owner order_id user
    o ← require_waiting_order order_id
    if eq_mode o.charge_mode mode then queue_status env o.id none else change_mode o mode

  unfoldable pub modify_amount : ℕ → F → Option ℕ → Action F (QueueStatus F)
  unfolding ensure_order_owner require_waiting_order
  modify_amount order_id amount user = do
    ensure_order_owner order_id user
    o ← require_waiting_order order_id
    rewrite_order o.id (set_amount amount)
    refresh_mode o.charge_mode true
    queue_status env o.id none

  abbrev pub cancel_in_waiting_area : Order F → Action F (Canceled F)
  cancel_in_waiting_area o = do
    rewrite_order o.id (cancel_waiting env.real_ms)
    refresh_mode o.charge_mode true
    trigger_basic env o.charge_mode
    pure (canceled_status (to_queue_status (cancel_waiting env.real_ms o) waiting_area 0 (nat 0)))

  abbrev pub refresh_if : Option ℕ → Action F (Unit {0})
  refresh_if none = pure tt
  refresh_if (some i) = refresh_pile env.virtual_ms i true >>= λ _. pure tt

  abbrev pub cancel_in_pile_queue : Order F → Action F (Canceled F)
  cancel_in_pile_queue o = do
    rewrite_order o.id (cancel_queued env.real_ms)
    refresh_if o.assigned_pile_id
    trigger_basic env o.charge_mode
    pure (canceled_status (to_queue_status (cancel_queued env.real_ms o) pile_queue_area 0 (nat 0)))

  abbrev pub cancel_charging : Option Codes → Order F → Action F (Canceled F)
  cancel_charging reason o = do
    detail ← close_and_bill env o.id (cancel_closing reason)
    trigger_basic env o.charge_mode
    pure (billed detail)

  abbrev pub cancel_order : Option Codes → Order F → OrderStatus → Action F (Canceled F)
  cancel_order reason o OrderStatus.waiting = cancel_in_waiting_area o
  cancel_order reason o OrderStatus.in_pile_queue = cancel_in_pile_queue o
  cancel_order reason o OrderStatus.charging = cancel_charging reason o
  cancel_order reason o _ = raise cannot_cancel

  unfoldable pub cancel : ℕ → Option Codes → Option ℕ → Action F (Canceled F)
  unfolding ensure_order_owner
  cancel order_id reason user = do
    ensure_order_owner order_id user
    o ← or_raise (← gets (λ db. find_order order_id db.orders)) not_found
    cancel_order reason o o.status

  abbrev pub start_on : Order F → Option (Pile F) → Action F Started
  start_on o none = raise not_at_head
  start_on o (some p) = do
    raise_if (not (can_start_on p)) pile_not_available
    db ← gets (λ db. db)
    raise_if (is_some (find_by (is_earlier p.id o) db.orders)) not_at_head
    modify (begin_charge o.id p.id (fl.clip env.virtual_ms))
    refresh_pile env.virtual_ms p.id true
    pure (record { order_id = o.id; session_id = db.next_id; pile_id = p.id })

  abbrev pub assigned_pile_of : Order F → Db F → Option (Pile F)
  assigned_pile_of o db = elim o.assigned_pile_id [ none ↦ none | some i ↦ find_pile i db.piles ]

  unfoldable pub start : ℕ → Option ℕ → Action F Started
  unfolding ensure_order_owner
  start order_id user = do
    ensure_order_owner order_id user
    o ← or_raise (← gets (λ db. find_order order_id db.orders)) not_found
    raise_if (not (is_queued o.status)) not_at_head
    pile ← gets (assigned_pile_of o)
    start_on o pile

  unfoldable pub stop : ℕ → Option ℕ → Action F (Detail F)
  unfolding ensure_order_owner
  stop order_id user = do
    ensure_order_owner order_id user
    o ← or_raise (← gets (λ db. find_order order_id db.orders)) not_found
    raise_if (not (is_charging o.status)) not_charging
    detail ← close_and_bill env order_id stop_closing
    trigger_basic env o.charge_mode
    pure detail
