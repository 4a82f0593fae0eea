-- ===== src/Charging/History.antt =====
-- `listOrders` of charging.service.ts: a user's orders, the latest first, each with its bill, or with
-- an empty bill if it ended without one.
use charging_station_system.Prelude.{
  ℕ, Bool, true, false, ◌==◌, Option, none, some, List, map, compare, then_by, or_else, filter_by,
  sort_by,
}
use charging_station_system.Float.{Float, nat}
use charging_station_system.Schema.{OrderStatus, Order, Session, Detail, Db}
use charging_station_system.Schema.Keys.{detail_of, find_session}
use charging_station_system.Station.{Action, gets}
use charging_station_system.Charging.Status.{QueueArea, queue_area}

-- The bill's own key, or the key `cancel-<order>` that stands for none.
pub data DetailKey : Type 0 where
  of_detail of_canceled : ℕ → DetailKey

pub record OrderDetail (F : Type 0) : Type 0 where
  pub detail_id : DetailKey
  pub session_id : Option ℕ
  pub pile_id : Option ℕ
  pub generated_at : ℕ
  pub start_time : Option ℕ
  pub stop_time : Option ℕ
  pub actual_amount : F
  pub duration : F
  pub charge_fee : F
  pub service_fee : F
  pub total_fee : F

pub record OrderView (F : Type 0) : Type 0 where
  pub order : Order F
  pub area : QueueArea
  pub detail : Option (OrderDetail F)

abbrev ended_early : OrderStatus → Bool
ended_early OrderStatus.canceled = true
ended_early OrderStatus.aborted = true
ended_early _ = false

module _ {F : Type 0} ⦃fl : Float F⦄ where
  abbrev pile_of_session : Option (Session F) → Option ℕ
  pile_of_session none = none
  pile_of_session (some s) = some s.pile_id

  abbrev start_of_session : Option (Session F) → Option ℕ
  start_of_session none = none
  start_of_session (some s) = some s.start_time

  abbrev stop_of_session : Option (Session F) → Option ℕ
  stop_of_session none = none
  stop_of_session (some s) = s.stop_time

  unfoldable pub billed_detail : Detail F → Option (Session F) → OrderDetail F
  billed_detail d s = record {
    detail_id = of_detail d.id;
    session_id = some d.session_id;
    pile_id = pile_of_session s;
    generated_at = d.generated_at;
    start_time = start_of_session s;
    stop_time = stop_of_session s;
    actual_amount = d.actual_amount;
    duration = d.duration;
    charge_fee = d.charge_fee;
    service_fee = d.service_fee;
    total_fee = d.total_fee;
  }

  unfoldable pub empty_detail : Order F → OrderDetail F
  empty_detail o = record {
    detail_id = of_canceled o.id;
    session_id = none;
    pile_id = o.assigned_pile_id;
    generated_at = or_else o.finished_at o.created_at;
    start_time = none;
    stop_time = o.finished_at;
    actual_amount = nat 0;
    duration = nat 0;
    charge_fee = nat 0;
    service_fee = nat 0;
    total_fee = nat 0;
  }

  unfoldable pub detail_view : Db F → Order F → Option (OrderDetail F)
  unfolding billed_detail empty_detail
  detail_view db o = elim (detail_of o.id db.details) [
    | some d ↦ some (billed_detail d (find_session d.session_id db.sessions))
    | none ↦ elim (ended_early o.status) [ true ↦ some (empty_detail o) | false ↦ none ]
  ]

  abbrev order_view : Db F → Order F → OrderView F
  order_view db o = record { order = o; area = queue_area o.status; detail = detail_view db o }

  -- `where: { userId }`, which is no condition where the user is undefined.
  abbrev belongs_to : Option ℕ → Order F → Bool
  belongs_to none o = true
  belongs_to (some u) o = o.user_id == u

  unfoldable pub list_orders : Option ℕ → Action F (List (OrderView F))
  unfolding detail_view queue_area
  list_orders user = gets (λ db. map (order_view db) (
      sort_by
        (λ a b. then_by (compare b.submit_time a.submit_time) (compare b.created_at a.created_at))
        (filter_by (belongs_to user) db.orders)))
