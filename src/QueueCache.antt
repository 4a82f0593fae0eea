-- ===== src/QueueCache.antt =====
-- apps/server/src/modules/queue/queue-cache.service.ts: the views of the waiting queues and of the
-- piles that are written to Redis and broadcast.
pub mod Views
use charging_station_system.Prelude.{
  ℕ, suc, Bool, true, false, Option, none, some, List, [], ◌∷◌, map, if◌then◌else◌, head?,
  filter_by, sort_by,
}
use charging_station_system.Float.{Float, nat}
use charging_station_system.Schema.{ChargeMode, fast, slow, is_busy, User, Pile, Order, Codes, Db}
use charging_station_system.Schema.Keys.{find_user, find_pile}
use charging_station_system.Schema.Queries.{
  waits_in, waiting_order, occupies, pile_order, latest_session,
}
use charging_station_system.Progress.{charging_progress}
use charging_station_system.Station.{
  WaitingEntry, PileQueueEntry, PileEntry, Effect, Env, cache_waiting, cache_pile,
  waiting_queue_changed, pile_metrics_update, Action, pure, gets, emit, ◌>>=◌, ◌>>◌,
}

module _ {F : Type 0} where
  unfoldable pub username_of : ℕ → List (User F) → Option Codes
  username_of i users = elim (find_user i users) [ none ↦ none | some u ↦ some u.username ]

  -- `waiting.map((order, index) => …)`, from rank `index + 1` on.
  unfoldable pub rank_from : List (User F) → ℕ → List (Order F) → List (WaitingEntry F)
  rank_from users index [] = []
  rank_from users index (o ∷ os) =
      record {
        rank = suc index;
        order_id = o.id;
        car_id = o.queue_no;
        charge_mode = o.charge_mode;
        target_kwh = o.requested_amount;
        user_account = username_of o.user_id users;
        user_id = o.user_id;
        check_in_time = o.submit_time;
        queue_no = o.queue_no;
      }
      ∷ rank_from users (suc index) os

  abbrev pub waiting_rows : ChargeMode → Db F → List (Order F)
  waiting_rows mode db = sort_by waiting_order (filter_by (waits_in mode) db.orders)

  unfoldable pub waiting_view : ChargeMode → Db F → List (WaitingEntry F)
  waiting_view mode db = rank_from db.users 0 (waiting_rows mode db)

  unfoldable pub refresh_mode : ChargeMode → Bool → Action F (List (WaitingEntry F))
  refresh_mode mode broadcast = do
    view ← gets (waiting_view mode)
    emit (cache_waiting mode view)
    if broadcast then emit (waiting_queue_changed view) else pure tt
    pure view

module _ {F : Type 0} ⦃fl : Float F⦄ where
  abbrev pub pile_rows : ℕ → Db F → List (Order F)
  pile_rows i db = sort_by pile_order (filter_by (occupies i) db.orders)

  unfoldable pub progress_of : F → Db F → F → Order F → F
  progress_of now db power o =
      charging_progress now o.status o.requested_amount (latest_session o.id db.sessions) power

  abbrev pub queue_entry : F → Db F → F → Order F → PileQueueEntry F
  queue_entry now db power o = record {
    order_id = o.id;
    queue_no = o.queue_no;
    status = o.status;
    user_id = o.user_id;
    username = username_of o.user_id db.users;
    requested_amount = o.requested_amount;
    progress = progress_of now db power o;
    entered_at = o.pile_queue_entered_at;
  }

  unfoldable pub pile_view : F → Db F → Pile F → PileEntry F
  pile_view now db p =
      let rows = pile_rows p.id db in
      record {
        id = p.id;
        pile_type = p.pile_type;
        physical_state = p.physical_state;
        working_state = p.working_state;
        current_power = if is_busy p.working_state then p.power else nat 0;
        target_car = elim (head? rows) [ none ↦ none | some o ↦ some o.queue_no ];
        progress = elim (head? rows) [ none ↦ nat 0 | some o ↦ progress_of now db p.power o ];
        queue = map (queue_entry now db p.power) rows;
      }

  -- The pile may be missing: nothing is sent then.
  abbrev publish_pile : F → ℕ → Bool → Db F → Option (Pile F) → Action F (Option (PileEntry F))
  publish_pile now i broadcast db none = pure none
  publish_pile now i broadcast db (some p) = do
    let view = pile_view now db p
    emit (cache_pile i view)
    if broadcast then emit (pile_metrics_update view) else pure tt
    pure (some view)

  unfoldable pub refresh_pile : F → ℕ → Bool → Action F (Option (PileEntry F))
  refresh_pile now i broadcast = do
    db ← gets (λ db. db)
    publish_pile now i broadcast db (find_pile i db.piles)

  -- `Promise.all` over the piles, in their order.
  unfoldable pub refresh_piles : F → Bool → List (Pile F) → Action F (Unit {0})
  refresh_piles now broadcast [] = pure tt
  refresh_piles now broadcast (p ∷ ps) =
      refresh_pile now p.id broadcast >>= λ _. refresh_piles now broadcast ps

  unfoldable pub refresh_all : F → Bool → Action F (Unit {0})
  refresh_all now broadcast = do
    refresh_mode fast broadcast
    refresh_mode slow broadcast
    piles ← gets (λ db. db.piles)
    refresh_piles now broadcast piles
