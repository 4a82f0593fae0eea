-- ===== src/Dispatch/Complete.antt =====
-- `autoCompleteCharging` and `wakeIdlePiles` of dispatch.service.ts.
use charging_station_system.Prelude.{
  ℕ, Bool, true, not, ◌&&◌, Option, none, some, List, [], ◌∷◌, if◌then◌else◌, head?, find_by,
  filter_by, sort_by, codes,
}
use charging_station_system.Float.{Float, nat, ◌⊖◌, ◌⊗◌, hours_of}
use charging_station_system.Schema.{
  Codes, OrderStatus, idle, is_charging, is_on, is_idle, Order, Pile, Session, Db,
}
use charging_station_system.Schema.Keys.{find_pile}
use charging_station_system.Schema.Queries.{active_on, queued_on, queue_order}
use charging_station_system.Station.{
  Env, Action, pure, gets, modify, emit, catch_all, ◌>>=◌, ◌>>◌, charging_complete, wake_lock,
}
use charging_station_system.QueueCache.{refresh_mode, refresh_pile}
use charging_station_system.Billing.Close.{Closing, close_and_bill}
use charging_station_system.Dispatch.Assign.{begin_charge}

abbrev pub charge_complete : Codes
charge_complete = codes "CHARGE_COMPLETE"

abbrev pub completion : Closing
completion = record {
  stop_reason = charge_complete;
  target_status = OrderStatus.finished;
  pile_working_state = idle;
}

module _ {F : Type 0} ⦃fl : Float F⦄ (env : Env F) where
  -- `delivered >= order.requestedAmount`, at a pile with power.
  unfoldable pub is_full : Order F → Session F → Pile F → Bool
  is_full o s p =
      not (fl.at_least (nat 0) p.power)
      && fl.at_least (fl.math_max (nat 0) (hours_of (env.virtual_ms ⊖ nat s.start_time)) ⊗ p.power)
          o.requested_amount

  unfoldable pub finish_full : Order F → Pile F → Action F (Unit {0})
  finish_full o p = do
    close_and_bill env o.id completion
    refresh_pile env.virtual_ms p.id true
    refresh_mode o.charge_mode true
    emit (charging_complete o.id p.id)

  abbrev pub assigned_pile : Option ℕ → List (Pile F) → Option (Pile F)
  assigned_pile none piles = none
  assigned_pile (some i) piles = find_pile i piles

  -- One round of the loop, on the rows that were read before it.
  abbrev pub complete_found : Order F → Option (Session F) → Option (Pile F) → Action F (Unit {0})
  complete_found o (some s) (some p) =
      if is_full o s p then catch_all (finish_full o p) else pure tt
  complete_found o _ _ = pure tt

  unfoldable pub complete_one : Db F → Order F → Action F (Unit {0})
  unfolding is_full finish_full
  complete_one before o =
      complete_found o (find_by (active_on o.id) before.sessions)
        (assigned_pile o.assigned_pile_id before.piles)

  unfoldable pub complete_from : Db F → List (Order F) → Action F (Unit {0})
  unfolding complete_one
  complete_from before [] = pure tt
  complete_from before (o ∷ os) = complete_one before o >>= λ _. complete_from before os

  unfoldable pub auto_complete_charging : Action F (Unit {0})
  unfolding complete_from
  auto_complete_charging = do
    before ← gets (λ db. db)
    complete_from before (filter_by (λ o. is_charging o.status) before.orders)

  -- Starts the head of an idle pile's queue, if the lock of the pile is free.
  abbrev pub wake_found : Pile F → Option (Order F) → Action F (Unit {0})
  wake_found p none = pure tt
  wake_found p (some o) =
      if env.lock (wake_lock p.id)
      then (do
        modify (begin_charge o.id p.id (fl.clip env.virtual_ms))
        refresh_pile env.virtual_ms p.id true
        pure tt)
      else pure tt

  unfoldable pub wake_from : Db F → List (Pile F) → Action F (Unit {0})
  wake_from before [] = pure tt
  wake_from before (p ∷ ps) =
      wake_found p (head? (sort_by queue_order (filter_by (queued_on p.id) before.orders))) >>= λ _.
      wake_from before ps

  unfoldable pub wake_idle_piles : Action F (Unit {0})
  unfolding wake_from
  wake_idle_piles = do
    before ← gets (λ db. db)
    wake_from before
        (filter_by (λ p. is_on p.physical_state && is_idle p.working_state) before.piles)
