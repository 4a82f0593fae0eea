-- ===== src/Piles/Fault.antt =====
-- `reportFault` of pile.service.ts: the charge at the pile is aborted and billed, what it lacks
-- becomes a new order under the old number, and the pile's queue is dispatched anew.
use charging_station_system.Prelude.{
  ℕ, Bool, true, false, not, ◌||◌, Option, none, some, List, [], ◌∷◌, ◌++◌, map, if◌then◌else◌,
  is_some, find_by, filter_by, sort_by, codes, length,
}
use charging_station_system.Float.{Float, nat, ◌⊖◌, positive, round_to}
use charging_station_system.Schema.{
  Codes, OrderStatus, priority, fault, ChargeMode, Order, Detail, Db,
}
use charging_station_system.Schema.Keys.{find_pile, detail_of}
use charging_station_system.Schema.Queries.{charging_on, queued_on, queue_order}
use charging_station_system.Station.{
  Env, Action, AffectedOrder, pure, raise_if, or_raise, gets, emit, ◌>>=◌, ◌>>◌, not_found,
  unique_violation, fault_event,
}
use charging_station_system.QueueCache.{refresh_pile, username_of}
use charging_station_system.Billing.Close.{Closing, close_and_bill}
use charging_station_system.Dispatch.Trigger.{trigger_basic, trigger_fault_reschedule}
use charging_station_system.Charging.Orders.{rewrite_order}
use charging_station_system.Charging.Submit.{create_order, number_taken}
use charging_station_system.Piles.Power.{rewrite_pile}

abbrev pub fault_text : Codes
fault_text = codes "FAULT"

abbrev pub fault_closing : Closing
fault_closing = record {
  stop_reason = fault_text;
  target_status = OrderStatus.aborted;
  pile_working_state = fault;
}

abbrev pub aborted_suffix : Codes
aborted_suffix = codes "-A"

-- `${queueNo}-A`
abbrev pub aborted_number : Codes → Codes
aborted_number number = number ++ aborted_suffix

-- What `reportFault` returns.
pub record FaultReport (F : Type 0) : Type 0 where
  pub affected_count : ℕ
  pub bill : Option (Detail F)
  pub continuation : Option ℕ
  pub affected : List (AffectedOrder F)

module _ {F : Type 0} ⦃fl : Float F⦄ where
  abbrev pub billed_amount : Option (Detail F) → F
  billed_amount none = nat 0
  billed_amount (some d) = d.actual_amount

  -- `remaining`
  unfoldable pub remaining_amount : Order F → Option (Detail F) → F
  remaining_amount o bill = round_to 100 (o.requested_amount ⊖ billed_amount bill)

module _ {F : Type 0} ⦃fl : Float F⦄ (env : Env F) where
  abbrev pub set_number : Codes → Order F → Order F
  set_number number o = record o { queue_no = number }

  -- The order gives its number to a new one for the rest.
  unfoldable pub continue_order : Order F → F → Action F (Option ℕ)
  unfolding create_order
  continue_order o remaining = do
    taken ← gets (λ db. number_taken (aborted_number o.queue_no) db.orders)
    raise_if taken unique_violation
    rewrite_order o.id (set_number (aborted_number o.queue_no))
    id ← create_order env o.user_id o.charge_mode remaining o.queue_no
    pure (some id)

  -- The charge at the pile, if there is one.
  unfoldable pub abort_charge : Option (Order F) → Action F (Option (Detail F) × Option ℕ)
  unfolding continue_order
  abort_charge none = pure (none, none)
  abort_charge (some o) = do
    bill ← close_and_bill env o.id fault_closing
    recorded ← gets (λ db. detail_of o.id db.details)
    let remaining = remaining_amount o recorded
    continuation ← if positive remaining then continue_order o remaining else pure none
    pure (some bill, continuation)

  abbrev pub affected_row : Db F → Order F → AffectedOrder F
  affected_row db o = record {
    order_id = o.id;
    queue_no = o.queue_no;
    user_id = o.user_id;
    username = username_of o.user_id db.users;
    requested_amount = o.requested_amount;
    status = o.status;
  }

  -- The aborted order comes first, under its new number.
  abbrev pub with_aborted :
      Option (Order F) → Db F → List (AffectedOrder F) → List (AffectedOrder F)
  with_aborted none db rows = rows
  with_aborted (some o) db rows =
      record (affected_row db o) {
        queue_no = aborted_number o.queue_no;
        status = OrderStatus.aborted;
      }
      ∷ rows

  abbrev pub id_of : Option (Order F) → Option ℕ
  id_of none = none
  id_of (some o) = some o.id

  abbrev pub is_empty : List (Order F) → Bool
  is_empty [] = true
  is_empty (o ∷ os) = false

  unfoldable pub reschedule_after_fault : ℕ → ChargeMode → Bool → Option ℕ → Action F (Unit {0})
  reschedule_after_fault pile_id mode has_queue continuation = do
    if has_queue then (trigger_fault_reschedule env pile_id priority >>= λ _. pure tt) else pure tt
    if has_queue || is_some continuation then (trigger_basic env mode >>= λ _. pure tt) else pure tt

  unfoldable pub report_fault : ℕ → Action F (FaultReport F)
  unfolding abort_charge reschedule_after_fault
  report_fault pile_id = do
    pile ← or_raise (← gets (λ db. find_pile pile_id db.piles)) not_found
    active ← gets (λ db. find_by (charging_on pile_id) db.orders)
    ended ← abort_charge active
    rewrite_pile pile_id (λ p. record p { working_state = fault })
    db ← gets (λ db. db)
    let queue = sort_by queue_order (filter_by (queued_on pile_id) db.orders)
    let affected = with_aborted active db (map (affected_row db) queue)
    refresh_pile env.virtual_ms pile_id true
    emit (fault_event pile_id pile.pile_type (id_of active) ended.1 affected)
    reschedule_after_fault pile_id pile.pile_type (not (is_empty queue)) ended.1
    pure (record {
      affected_count = length affected;
      bill = ended.0;
      continuation = ended.1;
      affected = affected;
    })
