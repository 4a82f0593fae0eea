-- ===== src/Dispatch/Assign.antt =====
-- `applyAssignments` of dispatch.service.ts: each assignment is checked against the database as the
-- earlier ones left it, and written or skipped.
pub mod Refresh
pub mod Capacity
use charging_station_system.Prelude.{
  ℕ, zero, suc, ◌+◌, Bool, true, false, not, ◌&&◌, ◌||◌, Option, none, some, List, [], ◌∷◌, ◌++◌,
  ltb, ◌==◌, if◌then◌else◌, first_some, or_else, count_by, includes,
}
use charging_station_system.Float.{Float, nat}
use charging_station_system.Schema.{
  ChargeMode, eq_mode, OrderStatus, is_charging, is_terminal, is_idle, WorkingState, busy,
  SessionStatus, active, Order, Pile, Session, Db,
}
use charging_station_system.Schema.Keys.{find_order, find_pile, set_order, set_pile}
use charging_station_system.Schema.Queries.{occupies}
use charging_station_system.Station.{
  SchedulerAssignment, Applied, Env, Action, pure, modify, gets, ◌>>=◌, ◌>>◌,
}
use charging_station_system.QueueCache.{refresh_pile}
use charging_station_system.Dispatch.Queues.{mode_is, available, pile_queue_capacity}

-- `applied`, `touchedPiles` and `autoStartedPiles`.
pub record Batch (F : Type 0) : Type 0 where
  pub applied : List (Applied F)
  pub touched : List ℕ
  pub auto_started : List ℕ

abbrev pub add_once : ℕ → List ℕ → List ℕ
add_once i is = if includes is i then is else is ++ (i ∷ [])

abbrev touch_old : Option ℕ → ℕ → List ℕ → List ℕ
touch_old none i is = is
touch_old (some old) i is = if old == i then is else add_once old is

abbrev pub no_batch : {F : Type 0} → Batch F
no_batch = record { applied = []; touched = []; auto_started = [] }

-- `order.status === CHARGING || isTerminal(order.status)`
abbrev pub is_fixed : OrderStatus → Bool
is_fixed s = is_charging s || is_terminal s

module _ {F : Type 0} where
  abbrev pub new_session : ℕ → ℕ → ℕ → ℕ → Session F
  new_session id order_id pile_id start = record {
    id = id;
    order_id = order_id;
    pile_id = pile_id;
    start_time = start;
    stop_time = none;
    actual_amount = none;
    stop_reason = none;
    session_status = SessionStatus.active;
  }

  -- The writes with which a charge begins: the order charges, the pile is busy, a session is open.
  unfoldable pub begin_charge : ℕ → ℕ → ℕ → Db F → Db F
  begin_charge order_id pile_id start db = record db {
    orders =
        set_order order_id
          (λ o. record o { status = OrderStatus.charging; started_at = some start }) db.orders;
    piles = set_pile pile_id (λ p. record p { working_state = busy }) db.piles;
    sessions = db.sessions ++ (new_session db.next_id order_id pile_id start ∷ []);
    next_id = suc db.next_id;
  }

  -- The order becomes one of the pile's queue.
  unfoldable pub enqueue_order : ℕ → ℕ → ℕ → Db F → Db F
  enqueue_order order_id pile_id entered db = record db {
    orders =
        set_order order_id
          (λ o. record o {
            status = OrderStatus.in_pile_queue;
            assigned_pile_id = some pile_id;
            pile_queue_entered_at = some entered;
          })
          db.orders;
  }

  -- `queueLength`: who else is at the pile, not counting the orders that may be moved.
  unfoldable pub queue_length : ℕ → List ℕ → ℕ → List (Order F) → ℕ
  queue_length order_id movable pile_id =
      count_by (λ o. occupies pile_id o && not (includes (order_id ∷ movable) o.id))

  unfoldable pub planned_for : ℕ → List (Applied F) → ℕ
  planned_for pile_id = count_by (λ a. a.pile_id == pile_id)

  abbrev pub target_order : SchedulerAssignment F → Option ℕ
  target_order a = first_some a.order_id a.order_id_camel

  abbrev pub target_pile : SchedulerAssignment F → Option ℕ
  target_pile a = first_some a.pile_id a.pile_id_camel

module _ {F : Type 0} ⦃fl : Float F⦄ (env : Env F) where
  pub refresh_touched : List ℕ → Action F (Unit {0})
  refresh_touched [] = pure tt
  refresh_touched (i ∷ is) = refresh_pile env.virtual_ms i true >>= λ _. refresh_touched is

module _ {F : Type 0} ⦃fl : Float F⦄ (env : Env F) (mode : Option ChargeMode)
    (movable : List ℕ) where
  -- The checks between an assignment that names an order and a pile and its writes.
  unfoldable pub admits : Db F → Batch F → Order F → Pile F → Bool
  unfolding queue_length planned_for
  admits db b order pile =
      not (is_fixed order.status)
      && (available pile
          && (mode_is mode pile.pile_type
              && ltb
                  (queue_length order.id movable pile.id db.orders + planned_for pile.id b.applied)
                  (pile_queue_capacity env)))

  abbrev pub auto_starts : Batch F → Pile F → Bool
  auto_starts b pile = is_idle pile.working_state && not (includes b.auto_started pile.id)

  -- The `$transaction`.
  unfoldable pub write_assignment : ℕ → Bool → Order F → Pile F → Db F → Db F
  unfolding begin_charge enqueue_order
  write_assignment index start order pile db =
      let queued = enqueue_order order.id pile.id (env.real_ms + index) db in
      if start then begin_charge order.id pile.id (fl.clip env.virtual_ms) queued else queued

  unfoldable pub record_assignment :
      SchedulerAssignment F → Bool → Order F → Pile F → Batch F → Batch F
  record_assignment a start order pile b = record {
    applied =
        b.applied
        ++ (record {
          order_id = order.id;
          queue_no = or_else (first_some a.queue_no a.queue_no_camel) order.queue_no;
          pile_id = pile.id;
          projected_finish_time =
              or_else (first_some a.projected_finish_time a.projected_finish_time_camel) (nat 0);
          auto_started = start;
        }
            ∷ []);
    touched = touch_old order.assigned_pile_id pile.id (add_once pile.id b.touched);
    auto_started = if start then add_once pile.id b.auto_started else b.auto_started;
  }

  -- One round of the loop, for the order and the pile that the keys name.
  unfoldable pub apply_found :
      ℕ
      → SchedulerAssignment F
      → Option (Order F)
      → Option (Pile F)
      → Db F × Batch F
      → Db F × Batch F
  unfolding admits write_assignment record_assignment
  apply_found index a (some order) (some pile) (db, b) =
      let start = auto_starts b pile in
      if admits db b order pile
      then (write_assignment index start order pile db, record_assignment a start order pile b)
      else (db, b)
  apply_found index a _ _ s = s

  unfoldable pub apply_one : ℕ → SchedulerAssignment F → Db F × Batch F → Db F × Batch F
  unfolding apply_found
  apply_one index a (db, b) = elim (target_order a) [
    | none ↦ (db, b)
    | some order_id ↦ elim (target_pile a) [
      | none ↦ (db, b)
      | some pile_id ↦
          apply_found index a (find_order order_id db.orders) (find_pile pile_id db.piles) (db, b)
    ]
  ]

  unfoldable pub apply_from : ℕ → List (SchedulerAssignment F) → Db F × Batch F → Db F × Batch F
  unfolding apply_one
  apply_from index [] s = s
  apply_from index (a ∷ as') s = apply_from (suc index) as' (apply_one index a s)

  unfoldable pub apply_assignments : List (SchedulerAssignment F) → Action F (List (Applied F))
  unfolding apply_from refresh_touched
  apply_assignments assignments = do
    before ← gets (λ db. db)
    let (after, batch) = apply_from 0 assignments (before, no_batch)
    modify (λ _. after)
    refresh_touched env batch.touched
    pure batch.applied
