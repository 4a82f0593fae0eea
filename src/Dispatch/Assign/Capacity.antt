-- ===== src/Dispatch/Assign/Capacity.antt =====
-- The load of the piles under `applyAssignments` of dispatch.service.ts, against the queue length that
-- is configured.
use charging_station_system.Prelude.{
  ℕ, suc, ◌≤◌, ◌≡◌, refl, inl, inr, Bool, true, false, not, ◌&&◌, ◌==◌, Option, none, some, List,
  [], ◌∷◌, arith, includes, count_by, update_first, Distinct, count_by-congr, count_by-update_first,
  count_by-update_first-le, update_first-update_first, Distinct-update_first, Bool-cases, ==→≡,
  subst, Option-cases,
}
use charging_station_system.Float.{Float}
use charging_station_system.Schema.{ChargeMode, Order, Pile, Db}
use charging_station_system.Schema.Keys.{order_has, find_order, find_pile}
use charging_station_system.Schema.Queries.{occupies}
use charging_station_system.Station.{SchedulerAssignment, Env, World}
use charging_station_system.Dispatch.Queues.{pile_queue_capacity}
use charging_station_system.Dispatch.Assign.Refresh.{apply_assignments_lem}
use charging_station_system.Dispatch.Assign.{
  Batch, begin_charge, enqueue_order, queue_length, admits, write_assignment, apply_found,
  apply_one, apply_from, apply_assignments, no_batch, target_order, target_pile,
}

module _ {F : Type 0} where
  abbrev pub order_key : Order F → ℕ
  order_key o = o.id

  -- The orders at a pile that the batch may not move.
  abbrev pub holds_place : List ℕ → ℕ → Order F → Bool
  holds_place movable q o = occupies q o && not (includes movable o.id)

  abbrev pub fixed_load : List ℕ → ℕ → Db F → ℕ
  fixed_load movable q db = count_by (holds_place movable q) db.orders

module _ {F : Type 0} ⦃fl : Float F⦄ (env : Env F) (mode : Option ChargeMode)
    (movable : List ℕ) where
  -- The orders after an assignment are the orders with one of them moved to the pile.
  pub write_assignment_update :
      (index : ℕ) (start : Bool) (order : Order F) (pile : Pile F) (db : Db F)
      → (f : Order F → Order F) × ((o : Order F) → (f o).id ≡ o.id)
        × ((o : Order F) → (f o).assigned_pile_id ≡ some pile.id)
        × ((write_assignment env mode movable index start order pile db).orders
            ≡ update_first (order_has order.id) f db.orders)
  unfolding write_assignment begin_charge enqueue_order
  write_assignment_update index true order pile db = (
    _,
    (λ o. refl),
    (λ o. refl),
    update_first-update_first (order_has order.id) _ _ db.orders (λ x. refl),
  )
  write_assignment_update index false order pile db = (_, (λ o. refl), (λ o. refl), refl)

  abbrev Fits : ℕ → Db F → Type 0
  Fits q db = fixed_load movable q db ≤ pile_queue_capacity env

  -- The orders that `queueLength` counts are those with a place, but for the order itself.
  queue_length_lem :
      (i q : ℕ) (os : List (Order F))
      → count_by (λ o. holds_place movable q o && not (o.id == i)) os ≡ queue_length i movable q os
  unfolding queue_length
  queue_length_lem i q os = count_by-congr _ _ (λ o. ground arith) os

  module _ (index : ℕ) (start : Bool) (order : Order F) (pile : Pile F) (db : Db F)
      (b : Batch F) where
    abbrev written : Db F
    written = write_assignment env mode movable index start order pile db

    written-Fits_here :
        Distinct order_key db.orders
        → admits env mode movable db b order pile ≡ true
        → Fits pile.id written
    unfolding admits
    written-Fits_here d ok =
        let (f, same, placed, e) = write_assignment_update index start order pile db in
        let bound =
          count_by-update_first order_key (holds_place movable pile.id) order.id f db.orders d in
        rw e (ground (arith, bound, queue_length_lem order.id pile.id db.orders))

    written-Fits_elsewhere : (q : ℕ) → (pile.id == q) ≡ false → Fits q db → Fits q written
    written-Fits_elsewhere q ne fits =
        let (f, same, placed, e) = write_assignment_update index start order pile db in
        let bound =
          count_by-update_first-le (holds_place movable q) (order_has order.id) f db.orders
            (λ x h. rw (placed x, ne) refl) in
        rw e (omega (arith, bound))

    written-Fits :
        (q : ℕ)
        → Distinct order_key db.orders
        → admits env mode movable db b order pile ≡ true
        → Fits q db
        → Fits q written
    written-Fits q d ok fits = elim (Bool-cases (pile.id == q)) [
      | inl e ↦ subst (λ k. Fits k written) (==→≡ pile.id q e) (written-Fits_here d ok)
      | inr ne ↦ written-Fits_elsewhere q ne fits
    ]

    written-Distinct : Distinct order_key db.orders → Distinct order_key written.orders
    written-Distinct d =
        let (f, same, placed, e) = write_assignment_update index start order pile db in
        rw e (Distinct-update_first order_key order.id f same db.orders d)

  -- The two facts together, which every round of the loop keeps.
  abbrev Keeps : ℕ → Db F → Type 0
  Keeps q db = Distinct order_key db.orders × Fits q db

  module _ (q : ℕ) where
    apply_found-Keeps :
        (index : ℕ) (a : SchedulerAssignment F) (o : Option (Order F)) (p : Option (Pile F))
        (db : Db F) (b : Batch F)
        → Keeps q db
        → Keeps q (apply_found env mode movable index a o p (db, b)).0
    unfolding apply_found
    apply_found-Keeps index a (some o) (some p) db b k =
        elim (Bool-cases (admits env mode movable db b o p)) [
          | inl ok ↦
              rw (ok, apply_found)
                (written-Distinct index _ o p db b k.0, written-Fits index _ o p db b q k.0 ok k.1)
          | inr no_room ↦ rw (no_room, apply_found) k
        ]
    apply_found-Keeps index a (some o) none db b k = k
    apply_found-Keeps index a none p db b k = k

    apply_one-Keeps :
        (index : ℕ) (a : SchedulerAssignment F) (db : Db F) (b : Batch F)
        → Keeps q db
        → Keeps q (apply_one env mode movable index a (db, b)).0
    unfolding apply_one
    apply_one-Keeps index a db b k = elim (Option-cases (target_order a)) [
      | inl e ↦ rw (e, apply_one) k
      | inr (i, e) ↦ elim (Option-cases (target_pile a)) [
        | inl e' ↦ rw (e, apply_one) (rw (e', apply_one) k)
        | inr (j, e') ↦
            rw (e, apply_one)
              (rw (e', apply_one)
                (apply_found-Keeps index a (find_order i db.orders) (find_pile j db.piles) db b k))
      ]
    ]

    apply_from-Keeps :
        (index : ℕ) (as' : List (SchedulerAssignment F)) (db : Db F) (b : Batch F)
        → Keeps q db
        → Keeps q (apply_from env mode movable index as' (db, b)).0
    unfolding apply_from
    apply_from-Keeps index [] db b k = k
    apply_from-Keeps index (a ∷ as') db b k =
        let s = apply_one env mode movable index a (db, b) in
        apply_from-Keeps (suc index) as' s.0 s.1 (apply_one-Keeps index a db b k)

  -- Whatever the scheduler answers, applying it keeps every pile within its capacity, as far as those
  -- orders are counted that the batch may not move (without such orders, the whole queue), provided
  -- that the keys of the orders are distinct, which they stay.
  pub apply_assignments_fits :
      (as' : List (SchedulerAssignment F)) (w : World F) (q : ℕ)
      → Distinct order_key w.db.orders
      → fixed_load movable q w.db ≤ pile_queue_capacity env
      → let w' = (apply_assignments env mode movable as' w).1 in
        Distinct order_key w'.db.orders × (fixed_load movable q w'.db ≤ pile_queue_capacity env)
  apply_assignments_fits as' w q d fits =
      let (es, e) = apply_assignments_lem env mode movable as' w in
      rw e (apply_from-Keeps q 0 as' w.db no_batch (d, fits))
