-- ===== src/Lifecycle/Dispatching.antt =====
-- Billing and the application of assignments keep the invariant and move the orders forward.
use charging_station_system.Prelude.{
  ℕ, suc, ◌+◌, ◌≡◌, refl, sym, subst, ap, Bool, true, false, Option, none, some, List, [], ◌∷◌,
  arith, inl, inr, Bool-cases, Option-cases, ==→≡, find_by_holds, find_by-update_first_self,
}
use charging_station_system.Float.{Float}
use charging_station_system.Schema.{ChargeMode, OrderStatus, is_charging, Order, Pile, Db}
use charging_station_system.Schema.Keys.{find_order, find_pile, order_has}
use charging_station_system.Station.{World, Env, SchedulerAssignment}
use charging_station_system.Station.Rules.{At}
use charging_station_system.QueueCache.{refresh_mode, refresh_pile}
use charging_station_system.QueueCache.Views.{refresh_mode_lem, refresh_pile_lem}
use charging_station_system.Billing.Close.{Closing, close_and_bill}
use charging_station_system.Billing.Close.Once.{close_and_bill_cases}
use charging_station_system.Dispatch.Assign.{
  Batch, enqueue_order, is_fixed, admits, write_assignment, apply_found, apply_one, apply_from,
  apply_assignments, no_batch, target_order, target_pile,
}
use charging_station_system.Dispatch.Assign.Refresh.{apply_assignments_lem}
use charging_station_system.Lifecycle.Statuses.{may_become}
use charging_station_system.Lifecycle.Valid.{order_id, Advances, Advances-IsPreorder}
use charging_station_system.Lifecycle.Writes.{begin_charge-Advances, enqueue_order-Advances}
use charging_station_system.Lifecycle.Closing.{Ends, close_rows-Advances}

moves_on :
    (s : OrderStatus)
    → is_fixed s ≡ false
    → (may_become s OrderStatus.in_pile_queue ≡ true)
      × (may_become s OrderStatus.charging ≡ true)
      × (is_charging s ≡ false)
moves_on s h = ground arith

module _ {F : Type 0} where
  open Advances-IsPreorder {F = F} use {reflexive, transitive}

  -- An order that is found is found by its own key.
  pub found_self :
      (i : ℕ) (os : List (Order F)) (o : Order F)
      → find_order i os ≡ some o
      → find_order o.id os ≡ some o
  found_self i os o e =
      subst (λ k. find_order k os ≡ some o) (sym (==→≡ o.id i (find_by_holds (order_has i) os o e)))
        e

  -- What leaves the database as it is.
  pub Advances-same : (a b : Db F) → b ≡ a → Advances a b
  Advances-same a b e = subst (Advances a) (sym e) (reflexive a)

  pub refresh_mode-At :
      (mode : ChargeMode) (broadcast : Bool) (w : World F)
      → At Advances w (refresh_mode mode broadcast w)
  refresh_mode-At mode broadcast w =
      Advances-same w.db _ (ap (λ r. r.1.db) (refresh_mode_lem mode broadcast w).1)

module _ {F : Type 0} ⦃fl : Float F⦄ (env : Env F) where
  open Advances-IsPreorder {F = F} use {reflexive, transitive}

  pub refresh_pile-At :
      (now : F) (i : ℕ) (broadcast : Bool) (w : World F)
      → At Advances w (refresh_pile now i broadcast w)
  refresh_pile-At now i broadcast w =
      Advances-same w.db _ (ap (λ r. r.1.db) (refresh_pile_lem now i broadcast w).2)

  -- Closing and billing, with a status that ends a charge.
  pub close_and_bill-At :
      (i : ℕ) (c : Closing) (w : World F)
      → Ends c.target_status
      → At Advances w (close_and_bill env i c w)
  close_and_bill-At i c w ends = elim (close_and_bill_cases env i c w) [
    | inl (e, refused) ↦ Advances-same w.db _ (ap (λ r. r.1.db) refused)
    | inr (o, eo, inl (d, ed, same)) ↦ Advances-same w.db _ (ap (λ r. r.1.db) same)
    | inr (o, eo, inr (ed, closed)) ↦ subst (At Advances w) (sym closed.result) (
        close_rows-Advances c _ _ _ _ o closed.session w.db ends (found_self i w.db.orders o eo)
          closed.found_session)
  ]

  module _ (mode : Option ChargeMode) (movable : List ℕ) where
    write_assignment-Advances :
        (index : ℕ) (start : Bool) (o : Order F) (p : Pile F) (db : Db F)
        → find_order o.id db.orders ≡ some o
        → is_fixed o.status ≡ false
        → Advances db (write_assignment env mode movable index start o p db)
    unfolding write_assignment enqueue_order
    write_assignment-Advances index false o p db e h =
        let (queue, charge, off) = moves_on o.status h in
        enqueue_order-Advances o.id p.id (env.real_ms + index) db o e queue off
    write_assignment-Advances index true o p db e h =
        let (queue, charge, off) = moves_on o.status h in
        let entered = env.real_ms + index in
        let queued = enqueue_order o.id p.id entered db in
        transitive db queued _ (enqueue_order-Advances o.id p.id entered db o e queue off) (
          begin_charge-Advances o.id p.id (fl.clip env.virtual_ms) queued _
            (find_by-update_first_self order_id o.id _ (λ x. refl) db.orders o e) refl refl)

    admits_not_fixed :
        (db : Db F) (b : Batch F) (o : Order F) (p : Pile F)
        → admits env mode movable db b o p ≡ true
        → is_fixed o.status ≡ false
    unfolding admits
    admits_not_fixed db b o p h = ground arith

    apply_found-Advances :
        (index : ℕ) (a : SchedulerAssignment F) (i : ℕ) (p : Option (Pile F)) (db : Db F)
        (b : Batch F)
        → Advances db (apply_found env mode movable index a (find_order i db.orders) p (db, b)).0
    unfolding apply_found
    apply_found-Advances index a i none db b = elim (Option-cases (find_order i db.orders)) [
      | inl e ↦ rw e (reflexive db)
      | inr (o, e) ↦ rw e (reflexive db)
    ]
    apply_found-Advances index a i (some p) db b = elim (Option-cases (find_order i db.orders)) [
      | inl e ↦ rw e (reflexive db)
      | inr (o, e) ↦ elim (Bool-cases (admits env mode movable db b o p)) [
        | inr refused ↦ rw e (rw refused (reflexive db))
        | inl admitted ↦ rw e (
            rw admitted (
              write_assignment-Advances index _ o p db (found_self i db.orders o e)
                (admits_not_fixed db b o p admitted)))
      ]
    ]

    apply_one-Advances :
        (index : ℕ) (a : SchedulerAssignment F) (db : Db F) (b : Batch F)
        → Advances db (apply_one env mode movable index a (db, b)).0
    unfolding apply_one
    apply_one-Advances index a db b = elim (Option-cases (target_order a)) [
      | inl e ↦ rw (e, apply_one) (reflexive db)
      | inr (i, e) ↦ elim (Option-cases (target_pile a)) [
        | inl e' ↦ rw (e, apply_one) (rw (e', apply_one) (reflexive db))
        | inr (j, e') ↦
            rw (e, apply_one)
              (rw (e', apply_one) (apply_found-Advances index a i (find_pile j db.piles) db b))
      ]
    ]

    apply_from-Advances :
        (index : ℕ) (as' : List (SchedulerAssignment F)) (db : Db F) (b : Batch F)
        → Advances db (apply_from env mode movable index as' (db, b)).0
    unfolding apply_from
    apply_from-Advances index [] db b = reflexive db
    apply_from-Advances index (a ∷ as') db b =
        let s = apply_one env mode movable index a (db, b) in
        transitive db s.0 _ (apply_one-Advances index a db b)
          (apply_from-Advances (suc index) as' s.0 s.1)

    -- Whatever the scheduler answers.
    pub apply_assignments-At :
        (as' : List (SchedulerAssignment F)) (w : World F)
        → At Advances w (apply_assignments env mode movable as' w)
    apply_assignments-At as' w =
        subst (At Advances w) (sym (apply_assignments_lem env mode movable as' w).1)
          (apply_from-Advances 0 as' w.db no_batch)
