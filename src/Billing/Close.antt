-- ===== src/Billing/Close.antt =====
-- `closeAndBill`, `detailByOrder`, `detailById` and `toDetailDto` of billing.service.ts.
pub mod Once
use charging_station_system.Prelude.{
  ℕ, suc, ◌+◌, Bool, true, false, ◌&&◌, ◌==◌, not, Option, none, some, List, [], ◌∷◌, ◌++◌,
  if◌then◌else◌, head?, or_else, is_some, filter_by, find_by, sort_by, compare,
}
use charging_station_system.Float.{Float, nat, ◌⊕◌, ◌⊗◌, ◌⊘◌, round_to}
use charging_station_system.Schema.{
  Codes, OrderStatus, WorkingState, SessionStatus, Order, Pile, Session, Detail, BillingRule, Db,
  is_active,
}
use charging_station_system.Schema.Keys.{
  find_order, find_pile, find_session, detail_of, set_order, set_pile, set_session,
}
use charging_station_system.Station.{
  Env, Action, pure, raise, or_raise, raise_if, gets, modify, ◌>>=◌, ◌>>◌, not_found,
  no_active_session, no_detail, not_owner, missing_row, unique_violation,
}
use charging_station_system.QueueCache.{refresh_mode, refresh_pile}
use charging_station_system.Billing.Fee.{calculate_charge_fee}
use charging_station_system.Billing.Amounts.{
  actual_amount, session_duration, previous_sessions, previous_amount, previous_duration,
  previous_charge_fee, active_rules,
}

-- What the caller asks for.
pub record Closing : Type 0 where
  pub stop_reason : Codes
  pub target_status : OrderStatus
  pub pile_working_state : WorkingState

abbrev pub closed_status : OrderStatus → SessionStatus
closed_status OrderStatus.aborted = SessionStatus.aborted
closed_status _ = SessionStatus.closed

-- The result of `toDetailDto`: the bill, with what it shows of the order and of the session.
pub record DetailDto (F : Type 0) : Type 0 where
  pub bill : Detail F
  pub queue_no : Codes
  pub user_id : ℕ
  pub status : OrderStatus
  pub pile_id : ℕ
  pub start_time : ℕ
  pub stop_time : Option ℕ

-- `userId && detail.order.userId !== userId`
abbrev pub is_stranger : Option ℕ → ℕ → Bool
is_stranger none owner = false
is_stranger (some u) owner = not (owner == u)

module _ {F : Type 0} where
  -- `order.sessions`, by start time.
  unfoldable pub order_sessions : ℕ → List (Session F) → List (Session F)
  order_sessions i sessions =
      sort_by (λ a b. compare a.start_time b.start_time) (filter_by (λ s. s.order_id == i) sessions)

  unfoldable pub active_session : List (Session F) → Option (Session F)
  active_session = find_by (λ s. is_active s.session_status)

  abbrev first_rate : F → List (BillingRule F) → F
  first_rate other [] = other
  first_rate other (r ∷ rs) = r.service_fee_rate

  abbrev first_version : List (BillingRule F) → ℕ
  first_version [] = 1
  first_version (r ∷ rs) = r.version

module _ {F : Type 0} ⦃fl : Float F⦄ where
  -- The bill of an order whose active session stops at `stop`, before it is written. The
  -- database stamps it with the real time.
  unfoldable pub bill_for : ℕ → ℕ → ℕ → Db F → Order F → Session F → F → Detail F
  bill_for zone generated stop db order session power =
      let rules = active_rules db.rules in
      let past = previous_sessions session.id (order_sessions order.id db.sessions) in
      let active_amount = actual_amount order.requested_amount power session stop in
      let total_amount = round_to 10_000 (previous_amount past ⊕ active_amount) in
      let charge = round_to 100 (
        previous_charge_fee zone rules past
        ⊕ calculate_charge_fee zone session.start_time stop active_amount rules) in
      let service = round_to 100 (total_amount ⊗ first_rate (nat 8 ⊘ nat 10) rules) in
      record {
        id = db.next_id;
        order_id = order.id;
        session_id = session.id;
        generated_at = generated;
        actual_amount = total_amount;
        duration =
            round_to 10_000 (previous_duration past ⊕ session_duration session.start_time stop);
        charge_fee = charge;
        service_fee = service;
        total_fee = round_to 100 (charge ⊕ service);
        billing_rule_version = first_version rules;
      }

  abbrev pub close_session : Closing → ℕ → F → Session F → Session F
  close_session c stop amount s = record s {
    stop_time = some stop;
    actual_amount = some amount;
    stop_reason = some c.stop_reason;
    session_status = closed_status c.target_status;
  }

  abbrev pub close_order : Closing → ℕ → Order F → Order F
  close_order c stop o = record o { status = c.target_status; finished_at = some stop }

  abbrev pub close_pile : Closing → F → F → Pile F → Pile F
  close_pile c duration amount p = record p {
    working_state = c.pile_working_state;
    total_charge_count = p.total_charge_count + 1;
    total_charge_duration = p.total_charge_duration ⊕ duration;
    total_charge_amount = p.total_charge_amount ⊕ amount;
  }

  -- The `$transaction`: session, order and pile are closed and the bill is added.
  unfoldable pub close_rows : Closing → ℕ → Detail F → F → F → Order F → Session F → Db F → Db F
  close_rows c stop bill duration amount order session db = record db {
    sessions = set_session session.id (close_session c stop amount) db.sessions;
    orders = set_order order.id (close_order c stop) db.orders;
    piles = set_pile session.pile_id (close_pile c duration amount) db.piles;
    details = db.details ++ (bill ∷ []);
    next_id = suc db.next_id;
  }

  abbrev session_billed : ℕ → List (Detail F) → Bool
  session_billed i details = is_some (find_by (λ d. d.session_id == i) details)

  module _ (env : Env F) where
    -- `new Date(virtualNowMs())`
    abbrev pub virtual_date : ℕ
    virtual_date = fl.clip env.virtual_ms

    -- The order has no bill yet.
    unfoldable pub bill_open_order : Closing → Order F → Action F (Detail F)
    bill_open_order c order = do
      db ← gets (λ db. db)
      session ← or_raise (active_session (order_sessions order.id db.sessions)) no_active_session
      pile ← or_raise (find_pile session.pile_id db.piles) missing_row
      let bill = bill_for env.zone env.real_ms virtual_date db order session pile.power
      raise_if (session_billed session.id db.details) unique_violation
      modify (
          close_rows c virtual_date bill (session_duration session.start_time virtual_date)
            (actual_amount order.requested_amount pile.power session virtual_date) order session)
      refresh_mode order.charge_mode true
      refresh_pile env.virtual_ms session.pile_id true
      pure bill

    abbrev bill_order : Closing → Order F → Option (Detail F) → Action F (Detail F)
    bill_order c order none = bill_open_order c order
    bill_order c order (some d) = pure d

    unfoldable pub close_and_bill : ℕ → Closing → Action F (Detail F)
    unfolding bill_open_order
    close_and_bill order_id c = do
      order ← or_raise (← gets (λ db. find_order order_id db.orders)) not_found
      billed ← gets (λ db. detail_of order.id db.details)
      bill_order c order billed

  unfoldable pub to_detail_dto : Detail F → Order F → Session F → DetailDto F
  to_detail_dto d o s = record {
    bill = d;
    queue_no = o.queue_no;
    user_id = o.user_id;
    status = o.status;
    pile_id = s.pile_id;
    start_time = s.start_time;
    stop_time = s.stop_time;
  }

  unfoldable pub dto_for : Option (Detail F) → Option ℕ → Action F (DetailDto F)
  unfolding to_detail_dto
  dto_for found user = do
    d ← or_raise found no_detail
    o ← or_raise (← gets (λ db. find_order d.order_id db.orders)) missing_row
    s ← or_raise (← gets (λ db. find_session d.session_id db.sessions)) missing_row
    raise_if (is_stranger user o.user_id) not_owner
    pure (to_detail_dto d o s)

  unfoldable pub detail_by_order : ℕ → Option ℕ → Action F (DetailDto F)
  unfolding dto_for
  detail_by_order order_id user = do
    found ← gets (λ db. detail_of order_id db.details)
    dto_for found user

  unfoldable pub detail_by_id : ℕ → Option ℕ → Action F (DetailDto F)
  unfolding dto_for
  detail_by_id detail_id user = do
    found ← gets (λ db. find_by (λ d. d.id == detail_id) db.details)
    dto_for found user
