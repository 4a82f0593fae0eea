-- ===== src/Lifecycle/Waking.antt =====
-- `wakeIdlePiles` of dispatch.service.ts, which reads the queues of all idle piles before it starts their
-- heads, against the invariant.
use charging_station_system.Prelude.{
  ℕ, ◌≡◌, refl, sym, subst, ap, ◌∙◌, true, false, ◌&&◌, Option, none, some, List, [], ◌∷◌, arith,
  head?, find_by, filter_by, sort_by, is_some, Distinct, keyed, Bool-cases, Option-cases, inl, inr,
  ==→≡, ==_refl, OnSome, least-All, head?-sort_by, filter_by-All, All-filter_by-passes,
  Distinct-found, Distinct-filter_by, find_by-update_first_ne, if◌then◌else◌,
}
use mathlib.Core.Option.{some-injective}
use charging_station_system.Float.{Float}
use charging_station_system.Schema.{OrderStatus, is_on, is_idle, is_charging, Order, Pile, Db}
use charging_station_system.Schema.Keys.{find_order}
use charging_station_system.Schema.Queries.{queued_on, queue_order}
use charging_station_system.Station.{World, Env, Effect, ok, pure, and_then, wake_lock}
use charging_station_system.QueueCache.Views.{refresh_pile_lem}
use charging_station_system.Dispatch.Assign.{begin_charge}
use charging_station_system.Dispatch.Complete.{wake_found, wake_from, wake_idle_piles}
use charging_station_system.Lifecycle.Statuses.{may_become}
use charging_station_system.Lifecycle.Valid.{order_id, pile_id, Advances, Advances-IsPreorder}
use charging_station_system.Lifecycle.Writes.{begin_charge-Advances}
use charging_station_system.Lifecycle.Moves.{Moves}

module _ {F : Type 0} where
  open Advances-IsPreorder {F = F} use {reflexive, transitive}

  -- The orders that were queued at the piles still to come are as they were.
  abbrev Untouched : Db F → List (Pile F) → Db F → Type 0
  Untouched before ps now =
      (j : ℕ) (x : Order F)
      → is_some (find_by (keyed pile_id j) ps) ≡ true
      → find_order x.id before.orders ≡ some x
      → queued_on j x ≡ true
      → find_order x.id now.orders ≡ some x

  abbrev head_of : Db F → ℕ → Option (Order F)
  head_of before j = head? (sort_by queue_order (filter_by (queued_on j) before.orders))

  -- The head of a queue is a row, and in the queue.
  head_is_queued :
      (before : Db F) (j : ℕ) (o : Order F)
      → Distinct order_id before.orders
      → head_of before j ≡ some o
      → (find_order o.id before.orders ≡ some o) × (queued_on j o ≡ true)
  head_is_queued before j o d e =
      let rows = filter_by (queued_on j) before.orders in
      let first = sym (head?-sort_by queue_order rows) ∙ e in
      let key =
        least-All queue_order (λ x. find_order x.id before.orders ≡ some x) rows
          (filter_by-All (queued_on j) _ before.orders (Distinct-found order_id before.orders d)) in
      let queue =
        least-All queue_order (λ x. queued_on j x ≡ true) rows
          (All-filter_by-passes (queued_on j) before.orders) in
      (
        subst (OnSome (λ x. find_order x.id before.orders ≡ some x)) first key,
        subst (OnSome (λ x. queued_on j x ≡ true)) first queue,
      )

  queued_on_may_charge :
      (j : ℕ) (o : Order F)
      → queued_on j o ≡ true
      → (may_become o.status OrderStatus.charging ≡ true) × (is_charging o.status ≡ false)
  queued_on_may_charge j o h = ground arith

  -- An order is in one queue.
  one_queue : (i j : ℕ) (x : Order F) → queued_on i x ≡ true → queued_on j x ≡ true → i ≡ j
  one_queue i j x h k = elim (Option-cases x.assigned_pile_id) [
    | inl e ↦ ground arith
    | inr (p, e) ↦ ground (arith, ==→≡ p i, ==→≡ p j)
  ]

  module _ (before : Db F) (p : Pile F) (ps : List (Pile F))
      (fresh : find_by (keyed pile_id p.id) ps ≡ none) (now : Db F)
      (untouched : Untouched before (p ∷ ps) now) where
    Untouched-same : Untouched before ps now
    Untouched-same j x h e k = untouched j x (ground arith) e k

    -- The start of one queue's head leaves the others' orders alone.
    Untouched-begin_charge :
        (o : Order F) (start : ℕ)
        → find_order o.id before.orders ≡ some o
        → queued_on p.id o ≡ true
        → Untouched before ps (begin_charge o.id p.id start now)
    unfolding begin_charge
    Untouched-begin_charge o start found queued j x h e k =
        find_by-update_first_ne order_id o.id _ (λ y. refl) x.id now.orders
          (λ same.
            let here : find_order x.id before.orders ≡ some o =
              subst (λ i. find_order i before.orders ≡ some o) (sym same) found in
            let is = some-injective o x (sym here ∙ e) in
            let at_j = subst (λ y. queued_on j y ≡ true) (sym is) k in
            let pile = one_queue p.id j o queued at_j in
            let gone = subst (λ i. find_by (keyed pile_id i) ps ≡ none) pile fresh in
            let off : false ≡ true = rw gone at h in cc)
        ∙ untouched j x (ground arith) e k

module _ {F : Type 0} ⦃fl : Float F⦄ (env : Env F) where
  open Advances-IsPreorder {F = F} use {reflexive, transitive}

  abbrev woken : Pile F → Option (Order F) → Db F → Db F
  woken p none db = db
  woken p (some o) db =
      if env.lock (wake_lock p.id) then begin_charge o.id p.id (fl.clip env.virtual_ms) db else db

  wake_found_lem :
      (p : Pile F) (o : Option (Order F)) (w : World F)
      → (es : List (Effect F)) × (wake_found env p o w
          ≡ (ok tt, record w { db = woken p o w.db; effects = es }))
  wake_found_lem p none w = (_, refl)
  wake_found_lem p (some o) w = elim (Bool-cases (env.lock (wake_lock p.id))) [
    | inl free ↦
        let now = record w { db = begin_charge o.id p.id (fl.clip env.virtual_ms) w.db } in
        let (v, es, e) = refresh_pile_lem env.virtual_ms p.id true now in
        rw free (es, ap (λ r. and_then r (λ _. pure tt)) e)
    | inr taken ↦ rw taken (w.effects, refl)
  ]

  woken_keeps :
      (before : Db F) (p : Pile F) (ps : List (Pile F)) (o : Option (Order F)) (now : Db F)
      → Distinct order_id before.orders
      → find_by (keyed pile_id p.id) ps ≡ none
      → Untouched before (p ∷ ps) now
      → head_of before p.id ≡ o
      → Advances now (woken p o now) × Untouched before ps (woken p o now)
  woken_keeps before p ps none now d fresh u e =
      (reflexive now, Untouched-same before p ps fresh now u)
  woken_keeps before p ps (some o) now d fresh u e =
      let (found, queued) = head_is_queued before p.id o d e in
      elim (Bool-cases (env.lock (wake_lock p.id))) [
        | inl free ↦ rw free (
          begin_charge-Advances o.id p.id _ now o
              (u p.id o (ground (arith, ==_refl p.id)) found queued)
              (queued_on_may_charge p.id o queued).0 (queued_on_may_charge p.id o queued).1,
          Untouched-begin_charge before p ps fresh now u o _ found queued,
        )
        | inr taken ↦ rw taken (reflexive now, Untouched-same before p ps fresh now u)
      ]

  wake_from-Advances :
      (before : Db F) (ps : List (Pile F)) (w : World F)
      → Distinct order_id before.orders
      → Distinct pile_id ps
      → Untouched before ps w.db
      → Advances w.db (wake_from env before ps w).1.db
  unfolding wake_from
  wake_from-Advances before [] w d ds u = reflexive w.db
  wake_from-Advances before (p ∷ ps) w d ds u =
      let o = head_of before p.id in
      let (es, e) = wake_found_lem p o w in
      let now : World F = record w { db = woken p o w.db; effects = es } in
      let (step, rest) = woken_keeps before p ps o w.db d ds.0 u refl in
      subst (λ r. Advances w.db (and_then r (λ _. wake_from env before ps)).1.db) (sym e)
        (transitive w.db now.db _ step (wake_from-Advances before ps now d ds.1 rest))

  pub wake-Moves : (w : World F) → Moves w (wake_idle_piles env w)
  unfolding wake_idle_piles
  wake-Moves w = record {
    at_end = λ v.
        let idle_piles =
          filter_by (λ p. is_on p.physical_state && is_idle p.working_state) w.db.piles in
        wake_from-Advances w.db idle_piles w v.orders_distinct
          (Distinct-filter_by pile_id _ w.db.piles v.piles_distinct) (λ j x h e k. e) v;
  }
