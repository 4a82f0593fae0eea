-- ===== src/Dispatch/Strategy/Complete.antt =====
-- Which orders the local strategies of dispatch.service.ts assign.
use charging_station_system.Prelude.{
  ℕ, ◌≡◌, refl, ◌∙◌, ap, if◌then◌else◌, Bool, some, List, [], ◌∷◌, map, arith, is_some, find_by,
  filter_by, head?-sort_by, is_some-least-filter_by, Option-cases, inl, inr,
}
use charging_station_system.Float.{Float}
use charging_station_system.Station.{SchedulerOrder, SchedulerPile}
use charging_station_system.Dispatch.Strategy.{
  not_faulty, push_order, compare_piles, choose_pile, assignment_to, local_basic_dispatch,
}

module _ {F : Type 0} where
  -- Some pile is not faulty.
  abbrev pub has_working : List (SchedulerPile F) → Bool
  has_working piles = is_some (find_by not_faulty piles)

  has_working-push_order :
      (i : ℕ) (o : SchedulerOrder F) (piles : List (SchedulerPile F))
      → has_working (push_order i o piles) ≡ has_working piles
  has_working-push_order i o [] = refl
  has_working-push_order i o (p ∷ ps) = ground (arith, has_working-push_order i o ps)

module _ {F : Type 0} ⦃fl : Float F⦄ where
  choose_pile_exists :
      (o : SchedulerOrder F) (piles : List (SchedulerPile F))
      → is_some (choose_pile o piles) ≡ has_working piles
  unfolding choose_pile
  choose_pile_exists o piles =
      ap is_some (head?-sort_by (compare_piles o) (filter_by not_faulty piles))
      ∙ is_some-least-filter_by (compare_piles o) not_faulty piles

  -- With a working pile, every order gets one assignment, in the order in which they are given;
  -- without one, no order does.
  pub local_basic_dispatch_serves :
      (orders : List (SchedulerOrder F)) (piles : List (SchedulerPile F))
      → map (λ a. a.order_id) (local_basic_dispatch orders piles)
        ≡ (if has_working piles then map (λ o. some o.order_id) orders else [])
  unfolding local_basic_dispatch assignment_to
  local_basic_dispatch_serves [] piles = ground arith
  local_basic_dispatch_serves (o ∷ os) piles = elim (Option-cases (choose_pile o piles)) [
    | inl e ↦
        rw (e, local_basic_dispatch)
          (ground (arith, choose_pile_exists o piles, local_basic_dispatch_serves os piles))
    | inr (p, e) ↦
        rw (e, local_basic_dispatch)
          (ground (
            arith,
            choose_pile_exists o piles,
            has_working-push_order p.pile_id o piles,
            local_basic_dispatch_serves os (push_order p.pile_id o piles),
          ))
  ]
