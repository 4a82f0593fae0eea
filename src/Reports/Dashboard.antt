-- ===== src/Reports/Dashboard.antt =====
-- admin-dashboard.service.ts: the counts of the station and the list of the orders that wait.
use charging_station_system.Prelude.{
  ℕ, Option, none, some, List, ltb, if◌then◌else◌, map, length, count_by, filter_by, sort_by,
}
use charging_station_system.Float.{Float, nat, ◌⊗◌, ◌⊘◌}
use charging_station_system.Schema.{
  Codes, ChargeMode, is_on, is_waiting, is_busy, is_fault, Order, Db,
}
use charging_station_system.Schema.Keys.{find_user}
use charging_station_system.Schema.Queries.{waiting_order}
use charging_station_system.Station.{Action, gets}

pub record Stats (F : Type 0) : Type 0 where
  pub active_count : ℕ
  pub charging_count : ℕ
  pub waiting_queue_count : ℕ
  pub fault_count : ℕ
  pub overall_efficiency : F
  pub total_piles : ℕ

-- The time is that of the submission; how it is printed depends on the server's locale.
pub record WaitingOrder (F : Type 0) : Type 0 where
  pub order_id : ℕ
  pub user_id : ℕ
  pub username : Option Codes
  pub mode : ChargeMode
  pub amount : F
  pub queue_no : Codes
  pub timestamp : ℕ

module _ {F : Type 0} ⦃fl : Float F⦄ where
  abbrev pub efficiency : ℕ → ℕ → F
  efficiency active charging =
      if ltb 0 active then fl.math_round ((nat charging ⊘ nat active) ⊗ nat 100) else nat 0

  unfoldable pub stats_of : Db F → Stats F
  stats_of db =
      let active = count_by (λ p. is_on p.physical_state) db.piles in
      let charging = count_by (λ p. is_busy p.working_state) db.piles in
      record {
        active_count = active;
        charging_count = charging;
        waiting_queue_count = count_by (λ o. is_waiting o.status) db.orders;
        fault_count = count_by (λ p. is_fault p.working_state) db.piles;
        overall_efficiency = efficiency active charging;
        total_piles = length db.piles;
      }

  unfoldable pub stats : Action F (Stats F)
  unfolding stats_of
  stats = gets stats_of

module _ {F : Type 0} where
  -- The database has a user for every order.
  abbrev pub username_of : ℕ → Db F → Option Codes
  username_of i db = elim (find_user i db.users) [ none ↦ none | some u ↦ some u.username ]

  abbrev pub waiting_row : Db F → Order F → WaitingOrder F
  waiting_row db o = record {
    order_id = o.id;
    user_id = o.user_id;
    username = username_of o.user_id db;
    mode = o.charge_mode;
    amount = o.requested_amount;
    queue_no = o.queue_no;
    timestamp = o.submit_time;
  }

  unfoldable pub waiting_queue_of : Db F → List (WaitingOrder F)
  waiting_queue_of db =
      map (waiting_row db) (sort_by waiting_order (filter_by (λ o. is_waiting o.status) db.orders))

  unfoldable pub waiting_queue : Action F (List (WaitingOrder F))
  unfolding waiting_queue_of
  waiting_queue = gets waiting_queue_of
