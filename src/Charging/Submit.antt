-- ===== src/Charging/Submit.antt =====
-- `submitRequest` of charging.service.ts, with `nextQueueNo`, `ensureUserCanSubmit` and
-- `ensureWaitingCapacity`.
pub mod Fresh
pub mod Refused
use charging_station_system.Prelude.{
  ℕ, zero, suc, ◌+◌, Bool, true, false, ◌&&◌, ◌==◌, leb, Option, none, some, List, [], ◌∷◌, ◌++◌,
  map, if◌then◌else◌, first_some, or_else, is_some, find_by, filter_by, count_by, eq_codes,
}
use charging_station_system.Float.{Float}
use charging_station_system.Schema.{
  Codes, ChargeMode, eq_mode, OrderStatus, is_waiting, is_unfinished, Order, Db,
}
use charging_station_system.Schema.Keys.{find_user}
use charging_station_system.Station.{
  Env, World, Error, Result, ok, err, Action, pure, raise, raise_if, or_raise, gets, modify, ◌>>=◌,
  ◌>>◌, not_found, unfinished_order, waiting_full, user_required, unique_violation,
}
use charging_station_system.QueueCache.{refresh_mode}
use charging_station_system.QueueNumber.{next_number, prefix_of, starts_with}
use charging_station_system.Charging.Status.{QueueStatus, queue_status}

-- `SubmitChargingRequestDto`
pub record SubmitChargingRequest (F : Type 0) : Type 0 where
  pub user_id : Option ℕ
  pub charge_mode : ChargeMode
  pub requested_amount : F

module _ {F : Type 0} where
  abbrev pub numbers_in_use : ChargeMode → List (Order F) → List Codes
  numbers_in_use mode orders =
      map (λ o. o.queue_no)
        (filter_by (λ o. eq_mode o.charge_mode mode && starts_with (prefix_of mode) o.queue_no)
          orders)

  -- `nextQueueNo`
  unfoldable pub next_queue_no : ChargeMode → Db F → Codes
  unfolding next_number
  next_queue_no mode db = next_number mode (numbers_in_use mode db.orders)

  abbrev pub unfinished_of : ℕ → Order F → Bool
  unfinished_of uid o = o.user_id == uid && is_unfinished o.status

  unfoldable pub ensure_user_can_submit : ℕ → Action F (Unit {0})
  ensure_user_can_submit uid = do
    or_raise (← gets (λ db. find_user uid db.users)) not_found
    existing ← gets (λ db. find_by (unfinished_of uid) db.orders)
    raise_if (is_some existing) unfinished_order

  unfoldable pub ensure_waiting_capacity : Env F → Action F (Unit {0})
  ensure_waiting_capacity env = do
    count ← gets (λ db. count_by (λ o. is_waiting o.status) db.orders)
    raise_if (leb (or_else env.waiting_area_size 20) count) waiting_full

  abbrev pub number_taken : Codes → List (Order F) → Bool
  number_taken number orders = is_some (find_by (λ o. eq_codes o.queue_no number) orders)

  abbrev pub waiting_row : ℕ → ℕ → ChargeMode → F → Codes → ℕ → Order F
  waiting_row id uid mode amount number now = record {
    id = id;
    user_id = uid;
    charge_mode = mode;
    requested_amount = amount;
    queue_no = number;
    status = OrderStatus.waiting;
    assigned_pile_id = none;
    pile_queue_entered_at = none;
    submit_time = now;
    started_at = none;
    finished_at = none;
    created_at = now;
  }

  abbrev pub add_order : Order F → Db F → Db F
  add_order o db = record db { orders = db.orders ++ (o ∷ []); next_id = suc db.next_id }

  -- `chargingOrder.create`; the result is the new key. A queue number is unique.
  unfoldable pub create_order : Env F → ℕ → ChargeMode → F → Codes → Action F ℕ
  create_order env uid mode amount number = do
    db ← gets (λ db. db)
    raise_if (number_taken number db.orders) unique_violation
    modify (add_order (waiting_row db.next_id uid mode amount number env.real_ms))
    pure db.next_id

module _ {F : Type 0} ⦃fl : Float F⦄ (env : Env F) where
  -- The body of the `try`.
  unfoldable pub attempt_submit : ℕ → SubmitChargingRequest F → Action F (QueueStatus F)
  unfolding next_queue_no create_order
  attempt_submit uid dto = do
    number ← gets (next_queue_no dto.charge_mode)
    id ← create_order env uid dto.charge_mode dto.requested_amount number
    refresh_mode dto.charge_mode true
    queue_status env id none

  abbrev pub is_unique_constraint_error : Error → Bool
  is_unique_constraint_error unique_violation = true
  is_unique_constraint_error _ = false

  -- The `catch`: what is not a conflict of queue numbers is thrown on.
  abbrev pub after_attempt :
      Action F (QueueStatus F) → Result (QueueStatus F) × World F → Result (QueueStatus F) × World F
  after_attempt again (ok status, w) = (ok status, w)
  after_attempt again (err e, w) = if is_unique_constraint_error e then again w else (err e, w)

  -- One attempt and as many more as the argument says; the last one throws whatever it meets.
  unfoldable pub submit_attempts : ℕ → ℕ → SubmitChargingRequest F → Action F (QueueStatus F)
  unfolding attempt_submit
  submit_attempts zero uid dto w = attempt_submit uid dto w
  submit_attempts (suc left) uid dto w =
      after_attempt (submit_attempts left uid dto) (attempt_submit uid dto w)

  unfoldable pub submit_request : SubmitChargingRequest F → Option ℕ → Action F (QueueStatus F)
  unfolding submit_attempts ensure_user_can_submit ensure_waiting_capacity
  submit_request dto user = do
    uid ← or_raise (first_some user dto.user_id) user_required
    ensure_user_can_submit uid
    ensure_waiting_capacity env
    submit_attempts 2 uid dto
