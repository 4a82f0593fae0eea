-- ===== src/Schema/Queries.antt =====
-- The `where` and `orderBy` clauses that several services share.
use charging_station_system.Prelude.{
  ℕ, Bool, ◌&&◌, Option, List, compare, Ordering, then_by, reversed, compare_nullable,
  compare_codes, ◌==◌, holds, head?, filter_by, sort_by,
}
use charging_station_system.Schema.Enums.{
  ChargeMode, eq_mode, is_waiting, is_queued, is_charging, at_pile, is_active,
}
use charging_station_system.Schema.Tables.{Order, Session}

module _ {F : Type 0} where
  abbrev pub by_submit_time : Order F → Order F → Ordering
  by_submit_time a b = compare a.submit_time b.submit_time

  abbrev pub by_queue_no : Order F → Order F → Ordering
  by_queue_no a b = compare_codes a.queue_no b.queue_no

  abbrev pub by_entered_at : Order F → Order F → Ordering
  by_entered_at a b = compare_nullable a.pile_queue_entered_at b.pile_queue_entered_at

  -- `orderBy: [{ startedAt: 'desc' }]`, which puts NULL last
  abbrev pub by_started_at_desc : Order F → Order F → Ordering
  by_started_at_desc a b = reversed (compare_nullable a.started_at b.started_at)

  -- `[{ submitTime: 'asc' }, { queueNo: 'asc' }]`
  abbrev pub waiting_order : Order F → Order F → Ordering
  waiting_order a b = then_by (by_submit_time a b) (by_queue_no a b)

  -- `[{ pileQueueEnteredAt: 'asc' }, { submitTime: 'asc' }]`
  abbrev pub queue_order : Order F → Order F → Ordering
  queue_order a b = then_by (by_entered_at a b) (by_submit_time a b)

  -- `[{ startedAt: 'desc' }, { pileQueueEnteredAt: 'asc' }, { submitTime: 'asc' }]`
  abbrev pub pile_order : Order F → Order F → Ordering
  pile_order a b = then_by (by_started_at_desc a b) (queue_order a b)

  abbrev pub on_pile : ℕ → Order F → Bool
  on_pile i o = holds o.assigned_pile_id i

  -- `assignedPileId: i, status: { in: [IN_PILE_QUEUE, CHARGING] }`
  abbrev pub occupies : ℕ → Order F → Bool
  occupies i o = on_pile i o && at_pile o.status

  abbrev pub queued_on : ℕ → Order F → Bool
  queued_on i o = on_pile i o && is_queued o.status

  abbrev pub charging_on : ℕ → Order F → Bool
  charging_on i o = on_pile i o && is_charging o.status

  abbrev pub waits_in : ChargeMode → Order F → Bool
  waits_in m o = is_waiting o.status && eq_mode o.charge_mode m

  -- The active sessions of an order, the latest first, and the first of these.
  abbrev pub active_on : ℕ → Session F → Bool
  active_on i s = s.order_id == i && is_active s.session_status

  unfoldable pub latest_session : ℕ → List (Session F) → Option (Session F)
  latest_session i sessions =
      head? (sort_by (λ a b. compare b.start_time a.start_time) (filter_by (active_on i) sessions))
