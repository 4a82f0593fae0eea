-- ===== src/Piles/Views.antt =====
-- `list` and `queue` of pile.service.ts: the piles with their queues, for the operator and the user.
use charging_station_system.Prelude.{ℕ, Option, none, some, List, map, compare, sort_by}
use charging_station_system.Float.{Float, nat, ◌⊖◌, ◌⊘◌}
use charging_station_system.Schema.{Codes, User, Session, Order, Pile, Db}
use charging_station_system.Schema.Keys.{find_user, find_pile}
use charging_station_system.Schema.Queries.{latest_session}
use charging_station_system.Station.{Env, Action, gets, ◌>>◌}
use charging_station_system.Progress.{delivered_amount, charging_progress}
use charging_station_system.QueueCache.{username_of, pile_rows}
use charging_station_system.Dispatch.Complete.{auto_complete_charging}

-- An order in the answer of `list`.
pub record ListedOrder (F : Type 0) : Type 0 where
  pub order : Order F
  pub username : Option Codes
  pub battery_capacity : Option F
  pub progress : F
  pub active_session_id : Option ℕ
  pub delivered : F
  pub wait_minutes : F

-- A pile in the answer of `list`.
pub record ListedPile (F : Type 0) : Type 0 where
  pub pile : Pile F
  pub queue : List (ListedOrder F)

-- An order in the answer of `queue`.
pub record QueuedRow (F : Type 0) : Type 0 where
  pub order : Order F
  pub battery_capacity : Option F
  pub progress : F
  pub active_session_id : Option ℕ
  pub wait_minutes : F

module _ {F : Type 0} where
  abbrev pub session_key : Option (Session F) → Option ℕ
  session_key none = none
  session_key (some s) = some s.id

  abbrev pub capacity_of : Option (User F) → Option F
  capacity_of none = none
  capacity_of (some u) = some u.battery_capacity

module _ {F : Type 0} ⦃fl : Float F⦄ where
  -- `assignedPile?.power ?? 0`
  abbrev pub power_of : Option (Pile F) → F
  power_of none = nat 0
  power_of (some p) = p.power

  abbrev pub minutes_since : F → ℕ → F
  minutes_since now since = fl.math_max (nat 0) (fl.math_round ((now ⊖ nat since) ⊘ nat 60_000))

  abbrev pub listed_order : Env F → Db F → F → Order F → ListedOrder F
  listed_order env db power o =
      let session = latest_session o.id db.sessions in
      record {
        order = o;
        username = username_of o.user_id db.users;
        battery_capacity = capacity_of (find_user o.user_id db.users);
        progress = charging_progress env.virtual_ms o.status o.requested_amount session power;
        active_session_id = session_key session;
        delivered = delivered_amount env.virtual_ms o.status session power;
        wait_minutes = minutes_since env.virtual_ms o.submit_time;
      }

  abbrev pub listed_pile : Env F → Db F → Pile F → ListedPile F
  listed_pile env db p = record {
    pile = p;
    queue = map (listed_order env db p.power) (pile_rows p.id db);
  }

  unfoldable pub list_piles : Env F → Action F (List (ListedPile F))
  list_piles env = do
    auto_complete_charging env
    gets (λ db. map (listed_pile env db) (sort_by (λ a b. compare a.id b.id) db.piles))

  -- The wait is measured by the real clock here.
  abbrev pub queued_row : Env F → Db F → F → Order F → QueuedRow F
  queued_row env db power o =
      let session = latest_session o.id db.sessions in
      record {
        order = o;
        battery_capacity = capacity_of (find_user o.user_id db.users);
        progress = charging_progress env.virtual_ms o.status o.requested_amount session power;
        active_session_id = session_key session;
        wait_minutes = minutes_since (nat env.real_ms) o.submit_time;
      }

  unfoldable pub pile_queue : Env F → ℕ → Action F (List (QueuedRow F))
  pile_queue env pile_id =
      gets (λ db.
        map (queued_row env db (power_of (find_pile pile_id db.piles))) (pile_rows pile_id db))
