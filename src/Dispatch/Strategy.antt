-- ===== src/Dispatch/Strategy.antt =====
-- The local strategies of dispatch.service.ts, which stand in for the scheduler service when it
-- cannot be reached.
pub mod Complete
pub mod Greedy
use charging_station_system.Prelude.{
  ℕ, Bool, not, Option, none, some, List, [], ◌∷◌, ◌++◌, foldl, compare, Ordering, then_by, ◌==◌,
  if◌then◌else◌, head?, filter_by, sort_by, update_first, length,
}
use charging_station_system.Float.{Float, nat, ◌⊕◌, ◌⊘◌, less, round_to}
use charging_station_system.Schema.{is_fault, Order}
use charging_station_system.Station.{SchedulerOrder, SchedulerPile, SchedulerAssignment}
use charging_station_system.QueueNumber.{queue_number}

module _ {F : Type 0} where
  unfoldable pub to_scheduler_order : Order F → SchedulerOrder F
  to_scheduler_order o = record {
    order_id = o.id;
    queue_no = o.queue_no;
    charge_mode = o.charge_mode;
    requested_amount = o.requested_amount;
    status = o.status;
  }

  abbrev pub not_faulty : SchedulerPile F → Bool
  not_faulty p = not (is_fault p.working_state)

  -- `target.queued_orders.push(order)`, on the pile object with that key.
  abbrev pub push_order : ℕ → SchedulerOrder F → List (SchedulerPile F) → List (SchedulerPile F)
  push_order i o =
      update_first (λ p. p.pile_id == i)
        (λ p. record p { queued_orders = p.queued_orders ++ (o ∷ []) })

module _ {F : Type 0} ⦃fl : Float F⦄ where
  abbrev compare_float : F → F → Ordering
  compare_float a b =
      if less a b then Ordering.lt else (if less b a then Ordering.gt else Ordering.eq)

  unfoldable pub projected_finish : SchedulerOrder F → SchedulerPile F → F
  projected_finish o p =
      foldl (λ total item. total ⊕ item.requested_amount ⊘ p.power) (nat 0) p.queued_orders
      ⊕ o.requested_amount ⊘ p.power

  -- The comparison of `candidates.sort`.
  unfoldable pub compare_piles : SchedulerOrder F → SchedulerPile F → SchedulerPile F → Ordering
  compare_piles o a b = then_by (compare_float (projected_finish o a) (projected_finish o b)) (
      then_by (compare a.pile_id b.pile_id)
        (compare (length a.queued_orders) (length b.queued_orders)))

  unfoldable pub choose_pile : SchedulerOrder F → List (SchedulerPile F) → Option (SchedulerPile F)
  unfolding compare_piles
  choose_pile o piles = head? (sort_by (compare_piles o) (filter_by not_faulty piles))

  unfoldable pub assignment_to : SchedulerOrder F → SchedulerPile F → SchedulerAssignment F
  unfolding projected_finish
  assignment_to o p = record {
    order_id = some o.order_id;
    order_id_camel = none;
    queue_no = some o.queue_no;
    queue_no_camel = none;
    pile_id = some p.pile_id;
    pile_id_camel = none;
    projected_finish_time = some (round_to 10_000 (projected_finish o p));
    projected_finish_time_camel = none;
  }

  unfoldable pub local_basic_dispatch :
      List (SchedulerOrder F) → List (SchedulerPile F) → List (SchedulerAssignment F)
  unfolding choose_pile assignment_to
  local_basic_dispatch [] piles = []
  local_basic_dispatch (o ∷ os) piles = elim (choose_pile o piles) [
    | none ↦ local_basic_dispatch os piles
    | some p ↦ assignment_to o p ∷ local_basic_dispatch os (push_order p.pile_id o piles)
  ]

  unfoldable pub local_time_order_dispatch :
      List (SchedulerOrder F) → List (SchedulerPile F) → List (SchedulerAssignment F)
  unfolding local_basic_dispatch queue_number
  local_time_order_dispatch orders piles =
      local_basic_dispatch
        (sort_by (λ a b. compare (queue_number a.queue_no) (queue_number b.queue_no)) orders) piles

  unfoldable pub local_batch_dispatch :
      List (SchedulerOrder F) → List (SchedulerPile F) → List (SchedulerAssignment F)
  unfolding local_basic_dispatch
  local_batch_dispatch orders piles =
      local_basic_dispatch
        (sort_by (λ a b. compare_float b.requested_amount a.requested_amount) orders) piles
