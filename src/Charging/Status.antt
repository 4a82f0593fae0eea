-- ===== src/Charging/Status.antt =====
-- `queueStatus` of charging.service.ts and what it is made of: the owner's check, the area, the
-- number of orders ahead and the estimated wait.
use charging_station_system.Prelude.{
  ℕ, Bool, false, not, ◌&&◌, ◌||◌, ◌==◌, ltb, Option, none, some, foldl, or_else, filter_by,
  count_by,
}
use charging_station_system.Float.{Float, nat, ◌⊕◌, ◌⊗◌, ◌⊘◌}
use charging_station_system.Schema.{Codes, ChargeMode, OrderStatus, is_charging, Order, Pile, Db}
use charging_station_system.Schema.Keys.{find_order, find_pile}
use charging_station_system.Schema.Queries.{waits_in, occupies}
use charging_station_system.Station.{
  Env, Action, pure, raise_if, or_raise, gets, ◌>>=◌, ◌>>◌, not_found, not_owner,
}
use charging_station_system.Billing.Close.{is_stranger}
use charging_station_system.Dispatch.Complete.{auto_complete_charging}

pub data QueueArea : Type 0 where
  waiting_area pile_queue_area charging_area finished_area : QueueArea

unfoldable pub queue_area : OrderStatus → QueueArea
queue_area OrderStatus.waiting = waiting_area
queue_area OrderStatus.in_pile_queue = pile_queue_area
queue_area OrderStatus.charging = charging_area
queue_area _ = finished_area

-- The result of `toQueueStatus`.
pub record QueueStatus (F : Type 0) : Type 0 where
  pub order_id : ℕ
  pub queue_no : Codes
  pub status : OrderStatus
  pub charge_mode : ChargeMode
  pub requested_amount : F
  pub area : QueueArea
  pub assigned_pile_id : Option ℕ
  pub ahead_count : ℕ
  pub estimated_wait_time : F

module _ {F : Type 0} where
  unfoldable pub to_queue_status : Order F → QueueArea → ℕ → F → QueueStatus F
  to_queue_status o area ahead wait = record {
    order_id = o.id;
    queue_no = o.queue_no;
    status = o.status;
    charge_mode = o.charge_mode;
    requested_amount = o.requested_amount;
    area = area;
    assigned_pile_id = o.assigned_pile_id;
    ahead_count = ahead;
    estimated_wait_time = wait;
  }

  -- Nobody is checked without a user.
  unfoldable pub ensure_order_owner : ℕ → Option ℕ → Action F (Unit {0})
  ensure_order_owner order_id none = pure tt
  ensure_order_owner order_id (some u) = do
    o ← or_raise (← gets (λ db. find_order order_id db.orders)) not_found
    raise_if (is_stranger (some u) o.user_id) not_owner

  -- `{ lt: limit }` is false for NULL.
  abbrev pub entered_before : ℕ → Order F → Bool
  entered_before limit o = elim o.pile_queue_entered_at [ none ↦ false | some t ↦ ltb t limit ]

  abbrev pub entry_of : Order F → ℕ
  entry_of o = or_else o.pile_queue_entered_at o.submit_time

  abbrev pub ahead_at_pile : Order F → Order F → Bool
  ahead_at_pile o x = is_charging x.status || entered_before (entry_of o) x

  unfoldable pub ahead_count : Order F → Db F → ℕ
  ahead_count o db = elim o.status [
    | OrderStatus.waiting ↦
        count_by (λ x. waits_in o.charge_mode x && ltb x.submit_time o.submit_time) db.orders
    | OrderStatus.in_pile_queue ↦ elim o.assigned_pile_id [
      | none ↦ 0
      | some p ↦ count_by (λ x. occupies p x && (not (x.id == o.id) && ahead_at_pile o x)) db.orders
    ]
    | _ ↦ 0
  ]

module _ {F : Type 0} ⦃fl : Float F⦄ where
  abbrev pub wait_at : Order F → Db F → Pile F → F
  wait_at o db p = fl.math_round (
      foldl (λ total x. total ⊕ x.requested_amount ⊘ p.power) (nat 0)
        (filter_by (λ x. occupies p.id x && ahead_at_pile o x) db.orders)
      ⊗ nat 60)

  unfoldable pub estimated_wait_time : Order F → Db F → F
  estimated_wait_time o db = elim o.status [
    | OrderStatus.in_pile_queue ↦ elim o.assigned_pile_id [
      | none ↦ nat 0
      | some i ↦ elim (find_pile i db.piles) [ none ↦ nat 0 | some p ↦ wait_at o db p ]
    ]
    | _ ↦ nat 0
  ]

  unfoldable pub queue_status : Env F → ℕ → Option ℕ → Action F (QueueStatus F)
  unfolding to_queue_status queue_area ahead_count estimated_wait_time ensure_order_owner
  queue_status env order_id user = do
    ensure_order_owner order_id user
    auto_complete_charging env
    o ← or_raise (← gets (λ db. find_order order_id db.orders)) not_found
    ahead ← gets (ahead_count o)
    wait ← gets (estimated_wait_time o)
    pure (to_queue_status o (queue_area o.status) ahead wait)
