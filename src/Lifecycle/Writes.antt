-- ===== src/Lifecycle/Writes.antt =====
-- The single writes of the services keep the invariant and move the orders forward.
use charging_station_system.Prelude.{
  ℕ, suc, ◌<◌, ◌≡◌, ◌≢◌, refl, sym, subst, ◌∙◌, true, false, ◌==◌, none, some, List, [], ◌∷◌, ◌++◌,
  arith, find_by, find_by-append_some, find_by-update_first_ne, find_by-update_first_self,
  Bool-cases, Option-cases, inl, inr, ==→≡, Distinct-update_first, Distinct-add, All-add, Below-suc,
  find_by-Below, All-update_first,
}
use charging_station_system.Schema.{
  OrderStatus, WorkingState, is_charging, Order, Session, Pile, Db,
}
use charging_station_system.Schema.Keys.{find_order, order_has, set_order, set_pile}
use charging_station_system.Schema.Queries.{active_on}
use charging_station_system.Dispatch.Assign.{begin_charge, enqueue_order, new_session}
use charging_station_system.Charging.Submit.{add_order}
use charging_station_system.Lifecycle.Statuses.{
  may_become, Later, Evolves-refl, Evolves-append, Evolves-update_first,
}
use charging_station_system.Lifecycle.Valid.{
  order_id, session_id, pile_id, charging_in, Advances, Advances-IsPreorder, AllLinked-mono,
  no_session, IsSingle-add,
}

module _ {F : Type 0} where
  -- An update of a pile that leaves its key alone.
  pub write_pile :
      (i : ℕ) (f : Pile F → Pile F) (db : Db F)
      → ((p : Pile F) → (f p).id ≡ p.id)
      → Advances db (record db { piles = set_pile i f db.piles })
  write_pile i f db same v = (
    record {
      piles_distinct = Distinct-update_first pile_id i f same db.piles v.piles_distinct;
      orders_distinct = v.orders_distinct;
      orders_below = v.orders_below;
      sessions_distinct = v.sessions_distinct;
      sessions_below = v.sessions_below;
      linked = v.linked;
      single = v.single;
    },
    Evolves-refl db.orders,
  )

  module _ (i : ℕ) (f : Order F → Order F) (same : (o : Order F) → (f o).id ≡ o.id)
      (os : List (Order F)) (o : Order F) (found : find_order i os ≡ some o) where
    -- The other orders charge as before.
    pub charging_in_others :
        (j : ℕ) → j ≢ i → charging_in os j ≡ true → charging_in (set_order i f os) j ≡ true
    charging_in_others j ne h = rw (find_by-update_first_ne order_id i f same j os ne) h

    pub charging_in_self : charging_in (set_order i f os) i ≡ is_charging (f o).status
    charging_in_self = rw (find_by-update_first_self order_id i f same os o found) refl

    charging_in_kept :
        (is_charging o.status ≡ true → is_charging (f o).status ≡ true)
        → (j : ℕ) → charging_in os j ≡ true
        → charging_in (set_order i f os) j ≡ true
    charging_in_kept keep j h = elim (Bool-cases (j == i)) [
      | inl e ↦
          let here = subst (λ k. charging_in os k ≡ true) (==→≡ j i e) h in
          let was : is_charging o.status ≡ true = rw found at here in
          subst (λ k. charging_in (set_order i f os) k ≡ true) (sym (==→≡ j i e))
            (charging_in_self ∙ keep was)
      | inr e ↦ charging_in_others j (ground arith) h
    ]

  -- An update of the order that is found, which moves forward and does not stop a charge.
  pub write_order :
      (i : ℕ) (f : Order F → Order F) (db : Db F) (o : Order F)
      → ((x : Order F) → (f x).id ≡ x.id)
      → find_order i db.orders ≡ some o
      → Later o (f o)
      → (is_charging o.status ≡ true → is_charging (f o).status ≡ true)
      → Advances db (record db { orders = set_order i f db.orders })
  write_order i f db o same found later keep v = (
    record {
      orders_distinct = Distinct-update_first order_id i f same db.orders v.orders_distinct;
      orders_below =
          All-update_first _ _ f (λ x h. subst (λ k. k < db.next_id) (sym (same x)) h) db.orders
            v.orders_below;
      linked =
          AllLinked-mono db.orders _ (charging_in_kept i f same db.orders o found keep) db.sessions
            v.linked;
      sessions_distinct = v.sessions_distinct;
      sessions_below = v.sessions_below;
      piles_distinct = v.piles_distinct;
      single = v.single;
    },
    Evolves-update_first (order_has i) f db.orders o found later,
  )

  -- An open session for an order that charges and has none yet.
  pub add_session :
      (i j start : ℕ) (db : Db F)
      → charging_in db.orders i ≡ true
      → find_by (active_on i) db.sessions ≡ none
      → Advances db (record db {
        sessions = db.sessions ++ (new_session db.next_id i j start ∷ []);
        next_id = suc db.next_id;
      })
  add_session i j start db charges free v =
      let s : Session F = new_session db.next_id i j start in
      (
        record {
          orders_below = Below-suc order_id db.next_id db.orders v.orders_below;
          sessions_distinct =
              Distinct-add session_id db.sessions s v.sessions_distinct
                (find_by-Below session_id db.next_id db.sessions v.sessions_below);
          sessions_below =
              All-add _ db.sessions s (Below-suc session_id db.next_id db.sessions v.sessions_below)
                (omega arith);
          linked = All-add _ db.sessions s v.linked charges;
          single = IsSingle-add db.sessions s v.single free;
          orders_distinct = v.orders_distinct;
          piles_distinct = v.piles_distinct;
        },
        Evolves-refl db.orders,
      )

  -- A new order at the end.
  pub add_order-Advances :
      (o : Order F) (db : Db F) → o.id ≡ db.next_id → Advances db (add_order o db)
  add_order-Advances o db key v =
      let free =
        subst (λ k. find_order k db.orders ≡ none) (sym key)
          (find_by-Below order_id db.next_id db.orders v.orders_below) in
      (
        record {
          orders_distinct = Distinct-add order_id db.orders o v.orders_distinct free;
          orders_below =
              All-add _ db.orders o (Below-suc order_id db.next_id db.orders v.orders_below)
                (omega arith);
          sessions_below = Below-suc session_id db.next_id db.sessions v.sessions_below;
          linked = AllLinked-mono db.orders _ (charging_in-add db.orders o) db.sessions v.linked;
          sessions_distinct = v.sessions_distinct;
          piles_distinct = v.piles_distinct;
          single = v.single;
        },
        Evolves-append db.orders (o ∷ []),
      )
    where
      charging_in-add :
          (os : List (Order F)) (x : Order F) (i : ℕ)
          → charging_in os i ≡ true
          → charging_in (os ++ (x ∷ [])) i ≡ true
      charging_in-add os x i h = elim (Option-cases (find_order i os)) [
        | inl e ↦ let off : false ≡ true = rw e at h in cc
        | inr (y, e) ↦
            let charges : is_charging y.status ≡ true = rw e at h in
            rw (find_by-append_some (order_has i) os (x ∷ []) y e) charges
      ]

  abbrev started : ℕ → Order F → Order F
  started start o = record o { status = OrderStatus.charging; started_at = some start }

  -- A charge begins, for an order that waits or is queued.
  pub begin_charge-Advances :
      (i j start : ℕ) (db : Db F) (o : Order F)
      → find_order i db.orders ≡ some o
      → may_become o.status OrderStatus.charging ≡ true
      → is_charging o.status ≡ false
      → Advances db (begin_charge i j start db)
  unfolding begin_charge
  begin_charge-Advances i j start db o found forward off v =
      let f = started start in
      let later : Later o (f o) = record {
        same_id = refl;
        same_user = refl;
        same_submit_time = refl;
        forward = forward;
      } in
      let db₁ : Db F = record db { orders = set_order i f db.orders } in
      let db₂ : Db F = record db₁ {
        piles = set_pile j (λ p. record p { working_state = WorkingState.busy }) db.piles;
      } in
      let was : charging_in db.orders i ≡ false = rw found off in
      let free = no_session db.orders i db.sessions v.linked was in
      let charging = charging_in_self i f (λ x. refl) db.orders o found in
      Advances-IsPreorder.transitive db db₁ _
        (write_order i f db o (λ x. refl) found later (λ _. refl))
        (Advances-IsPreorder.transitive db₁ db₂ _ (write_pile j _ db₁ (λ p. refl))
          (add_session i j start db₂ charging free))
        v

  -- An order that waits or is queued becomes one of a pile's queue.
  pub enqueue_order-Advances :
      (i j entered : ℕ) (db : Db F) (o : Order F)
      → find_order i db.orders ≡ some o
      → may_become o.status OrderStatus.in_pile_queue ≡ true
      → is_charging o.status ≡ false
      → Advances db (enqueue_order i j entered db)
  unfolding enqueue_order
  enqueue_order-Advances i j entered db o found forward off =
      write_order i _ db o (λ x. refl) found
        (record { same_id = refl; same_user = refl; same_submit_time = refl; forward = forward })
        (λ e. cc)
