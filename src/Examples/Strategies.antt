-- ===== src/Examples/Strategies.antt =====
-- The theorems on the local strategies at an order for two piles.
use charging_station_system.Prelude.{
  ℕ, ◌*◌, ◌≡◌, refl, true, false, some, List, [], ◌∷◌, All, map, codes, if◌then◌else◌,
}
use charging_station_system.Float.{fixed_float, fixed-IsOrdered, unit}
use charging_station_system.Schema.{fast, OrderStatus, WorkingState, idle, busy}
use charging_station_system.Station.{SchedulerOrder, SchedulerPile}
use charging_station_system.Dispatch.Strategy.Greedy.{choose_pile_best}
use charging_station_system.Dispatch.Strategy.{
  choose_pile, compare_piles, local_basic_dispatch, not_faulty, projected_finish,
}
use charging_station_system.Dispatch.Strategy.Complete.{has_working, local_basic_dispatch_serves}

-- An order for two piles, of which the first has an order already.
abbrev request : ℕ → SchedulerOrder ℕ
request i = record {
  order_id = i;
  queue_no = codes "F7";
  charge_mode = fast;
  requested_amount = 30 * unit;
  status = OrderStatus.waiting;
}

abbrev pile_with : ℕ → WorkingState → List (SchedulerOrder ℕ) → SchedulerPile ℕ
pile_with i state orders = record {
  pile_id = i;
  pile_type = fast;
  power = 30 * unit;
  working_state = state;
  queued_orders = orders;
}

abbrev two_piles : List (SchedulerPile ℕ)
two_piles = pile_with 1 busy (request 6 ∷ []) ∷ pile_with 2 idle [] ∷ []

choose_pile_best_example :
    (not_faulty (pile_with 2 idle []) ≡ true)
    × All
        (λ x.
          not_faulty x ≡ true
          → fixed_float.less
              (projected_finish (request 7) x)
              (projected_finish (request 7) (pile_with 2 idle []))
            ≡ false)
        two_piles
unfolding choose_pile compare_piles projected_finish
choose_pile_best_example =
    choose_pile_best fixed-IsOrdered (request 7) two_piles (pile_with 2 idle []) (refl, (refl, tt))
      refl

local_basic_dispatch_serves_example :
    map (λ a. a.order_id) (local_basic_dispatch (request 7 ∷ request 8 ∷ []) two_piles) ≡ (
      if has_working two_piles then map (λ o. some o.order_id) (request 7 ∷ request 8 ∷ []) else [])
local_basic_dispatch_serves_example =
    local_basic_dispatch_serves (request 7 ∷ request 8 ∷ []) two_piles
