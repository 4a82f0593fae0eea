-- ===== src/Dispatch/Queues.antt =====
-- The queries of dispatch.service.ts: the orders that wait or are assigned, and the piles with their
-- queues.
use charging_station_system.Prelude.{
  ℕ, Bool, true, false, not, ◌&&◌, Option, none, some, List, map, compare, then_by, ◌==◌, filter_by,
  sort_by, or_else,
}
use charging_station_system.Schema.{
  ChargeMode, eq_mode, is_waiting, is_queued, is_on, is_fault, OrderStatus, Order, Pile, Db,
}
use charging_station_system.Schema.Queries.{
  waiting_order, queue_order, pile_order, by_queue_no, on_pile, queued_on,
}
use charging_station_system.Station.{SchedulerOrder, SchedulerPile, Env}
use charging_station_system.Dispatch.Strategy.{to_scheduler_order}

-- A mode that is not given admits all.
abbrev pub mode_is : Option ChargeMode → ChargeMode → Bool
mode_is none m = true
mode_is (some wanted) m = eq_mode m wanted

-- `id: { not: i }`, if a key is given.
abbrev id_is_not : Option ℕ → ℕ → Bool
id_is_not none i = true
id_is_not (some other) i = not (i == other)

module _ {F : Type 0} where
  unfoldable pub waiting_orders : Option ChargeMode → Db F → List (SchedulerOrder F)
  unfolding to_scheduler_order
  waiting_orders mode db = map to_scheduler_order (
      sort_by waiting_order
        (filter_by (λ o. is_waiting o.status && mode_is mode o.charge_mode) db.orders))

  unfoldable pub assigned_orders : ℕ → Db F → List (SchedulerOrder F)
  unfolding to_scheduler_order
  assigned_orders pile_id db =
      map to_scheduler_order (sort_by queue_order (filter_by (queued_on pile_id) db.orders))

  -- `assignedPileId: { not: … }` is false for NULL, as in SQL.
  abbrev assigned_elsewhere : Option ℕ → Order F → Bool
  assigned_elsewhere excluded o = elim o.assigned_pile_id [
    | none ↦ false
    | some p ↦ id_is_not excluded p
  ]

  unfoldable pub assigned_orders_by_mode : ChargeMode → Option ℕ → Db F → List (SchedulerOrder F)
  unfolding to_scheduler_order
  assigned_orders_by_mode mode excluded db = map to_scheduler_order (
      sort_by (λ a b. then_by (by_queue_no a b) (queue_order a b))
        (filter_by
          (λ o. eq_mode o.charge_mode mode && (is_queued o.status && assigned_elsewhere excluded o))
          db.orders))

  abbrev pub available : Pile F → Bool
  available p = is_on p.physical_state && not (is_fault p.working_state)

  abbrev queue_of : (OrderStatus → Bool) → Db F → ℕ → List (SchedulerOrder F)
  queue_of statuses db i =
      map to_scheduler_order
        (sort_by pile_order (filter_by (λ o. on_pile i o && statuses o.status) db.orders))

  abbrev to_scheduler_pile : (OrderStatus → Bool) → Db F → Pile F → SchedulerPile F
  to_scheduler_pile statuses db p = record {
    pile_id = p.id;
    pile_type = p.pile_type;
    power = p.power;
    working_state = p.working_state;
    queued_orders = queue_of statuses db p.id;
  }

  -- The statuses are those of the orders that count as queued.
  unfoldable pub pile_queues :
      Option ChargeMode → Option ℕ → (OrderStatus → Bool) → Db F → List (SchedulerPile F)
  unfolding to_scheduler_order
  pile_queues mode excluded statuses db = map (to_scheduler_pile statuses db) (
      sort_by (λ a b. compare a.id b.id)
        (filter_by (λ p. available p && (mode_is mode p.pile_type && id_is_not excluded p.id))
          db.piles))

  -- `pileQueueCapacity`
  abbrev pub pile_queue_capacity : Env F → ℕ
  pile_queue_capacity env = or_else env.charging_queue_len 2
