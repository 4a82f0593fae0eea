-- ===== src/Lifecycle/Charges.antt =====
-- `cancel`, `start` and `stop` of charging.service.ts against the invariant and the forward order of the
-- statuses.
use charging_station_system.Prelude.{
  ℕ, ◌≡◌, refl, true, false, not, Option, none, some, arith, is_some, find_by, Bool-cases, inl, inr,
}
use charging_station_system.Float.{Float}
use charging_station_system.Schema.{Codes, OrderStatus, is_queued, is_charging, Order, Pile}
use charging_station_system.Schema.Keys.{find_order, set_order}
use charging_station_system.Station.{World, Env, Result}
use charging_station_system.Dispatch.Assign.{begin_charge}
use charging_station_system.Charging.Orders.{
  is_user_stop, cancel_closing, stop_closing, cancel_waiting, cancel_queued, cancel_order, cancel,
  refresh_if, is_earlier, can_start_on, start_on, assigned_pile_of, start, stop,
}
use charging_station_system.Lifecycle.Statuses.{may_become, Later}
use charging_station_system.Lifecycle.Writes.{write_order, begin_charge-Advances}
use charging_station_system.Lifecycle.Closing.{Ends}
use charging_station_system.Lifecycle.Dispatching.{found_self}
use charging_station_system.Lifecycle.Moves.{
  Moves, stays, then-Moves, found-Moves, unless-Moves, write-Moves, mode-Moves, pile-Moves,
  close-Moves,
}
use charging_station_system.Lifecycle.Triggers.{trigger_basic-Moves}
use charging_station_system.Lifecycle.Requests.{owned-Moves}

cancel-Ends : (reason : Option Codes) → Ends (cancel_closing reason).target_status
cancel-Ends reason = elim (Bool-cases (is_user_stop reason)) [
  | inl stop ↦ rw stop (refl, refl)
  | inr fault ↦ rw fault (refl, refl)
]

queued_may_charge :
    (s : OrderStatus)
    → is_queued s ≡ true
    → (may_become s OrderStatus.charging ≡ true) × (is_charging s ≡ false)
queued_may_charge s h = ground arith

module _ {F : Type 0} where
  -- An order that does not charge moves on to a status in which it does not charge either.
  off_charge-Moves :
      {A : Type 0}
      → {w : World F} → {r : Result A × World F} → (f : Order F → Order F) → (o : Order F)
      → ((x : Order F) → (f x).id ≡ x.id)
      → find_order o.id w.db.orders ≡ some o
      → Later o (f o)
      → is_charging o.status ≡ false
      → Moves (record w { db = record w.db { orders = set_order o.id f w.db.orders } }) r
      → Moves w r
  off_charge-Moves {A} {w} {r} f o same found later off h =
      write-Moves (λ db. record db { orders = set_order o.id f db.orders })
        (write_order o.id f w.db o same found later (λ c. cc)) h

module _ {F : Type 0} ⦃fl : Float F⦄ (env : Env F) where
  refresh_if-Moves : (i : Option ℕ) (w : World F) → Moves w (refresh_if env i w)
  refresh_if-Moves none w = stays refl
  refresh_if-Moves (some i) w = then-Moves _ (pile-Moves env _ _ _) λ v _. stays refl

  cancel_order-Moves :
      (reason : Option Codes) (o : Order F) (s : OrderStatus) (w : World F)
      → o.status ≡ s
      → find_order o.id w.db.orders ≡ some o
      → Moves w (cancel_order env reason o s w)
  cancel_order-Moves reason o OrderStatus.waiting w is e =
      off_charge-Moves (cancel_waiting env.real_ms) o (λ x. refl) e
        (record { same_id = refl; same_user = refl; same_submit_time = refl; forward = rw is refl })
        (rw is refl)
        (then-Moves _ (mode-Moves _ _)
          λ v _. then-Moves _ (trigger_basic-Moves env o.charge_mode _) λ applied _. stays refl)
  cancel_order-Moves reason o OrderStatus.in_pile_queue w is e =
      off_charge-Moves (cancel_queued env.real_ms) o (λ x. refl) e
        (record { same_id = refl; same_user = refl; same_submit_time = refl; forward = rw is refl })
        (rw is refl)
        (then-Moves _ (refresh_if-Moves o.assigned_pile_id _)
          λ v _. then-Moves _ (trigger_basic-Moves env o.charge_mode _) λ applied _. stays refl)
  cancel_order-Moves reason o OrderStatus.charging w is e =
      then-Moves _ (close-Moves env o.id (cancel_closing reason) (cancel-Ends reason))
        λ d _. then-Moves _ (trigger_basic-Moves env o.charge_mode _) λ applied _. stays refl
  cancel_order-Moves reason o OrderStatus.finished w is e = stays refl
  cancel_order-Moves reason o OrderStatus.canceled w is e = stays refl
  cancel_order-Moves reason o OrderStatus.aborted w is e = stays refl

  pub cancel-Moves :
      (i : ℕ) (reason : Option Codes) (user : Option ℕ) (w : World F)
      → Moves w (cancel env i reason user w)
  unfolding cancel
  cancel-Moves i reason user w = owned-Moves i user _ (
      found-Moves (find_order i w.db.orders) _ _
        λ o e. cancel_order-Moves reason o o.status w refl (found_self i w.db.orders o e))

  start_on-Moves :
      (o : Order F) (p : Option (Pile F)) (w : World F)
      → find_order o.id w.db.orders ≡ some o
      → is_queued o.status ≡ true
      → Moves w (start_on env o p w)
  start_on-Moves o none w e h = stays refl
  start_on-Moves o (some p) w e h = unless-Moves (not (can_start_on p)) _ _ λ ready.
      unless-Moves (is_some (find_by (is_earlier p.id o) w.db.orders)) _ _ λ head.
        write-Moves (begin_charge o.id p.id (fl.clip env.virtual_ms))
          (begin_charge-Advances o.id p.id _ w.db o e (queued_may_charge o.status h).0
            (queued_may_charge o.status h).1)
          (then-Moves _ (pile-Moves env _ _ _) λ v _. stays refl)

  pub start-Moves : (i : ℕ) (user : Option ℕ) (w : World F) → Moves w (start env i user w)
  unfolding start
  start-Moves i user w = owned-Moves i user _ (
      found-Moves (find_order i w.db.orders) _ _ λ o e.
        unless-Moves (not (is_queued o.status)) _ _ λ queued.
          start_on-Moves o (assigned_pile_of env o w.db) w (found_self i w.db.orders o e)
            (ground arith))

  pub stop-Moves : (i : ℕ) (user : Option ℕ) (w : World F) → Moves w (stop env i user w)
  unfolding stop
  stop-Moves i user w = owned-Moves i user _ (
      found-Moves (find_order i w.db.orders) _ _ λ o e.
        unless-Moves (not (is_charging o.status)) _ _ λ charging.
          then-Moves _ (close-Moves env i stop_closing (refl, refl))
            λ d _. then-Moves _ (trigger_basic-Moves env o.charge_mode _) λ applied _. stays refl)
