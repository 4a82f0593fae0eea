-- ===== src/Lifecycle/Requests.antt =====
-- `submitRequest`, `queueStatus`, `modifyMode` and `modifyAmount` of charging.service.ts against the
-- invariant and the forward order of the statuses.
use charging_station_system.Prelude.{
  ℕ, zero, suc, ◌≡◌, refl, sym, subst, ap, ◌∙◌, true, Option, none, some, is_some, find_by,
  update_first-none, first_some, Bool-cases, Option-cases, inl, inr, if◌then◌else◌,
}
use charging_station_system.Float.{Float}
use charging_station_system.Schema.{Codes, ChargeMode, eq_mode, is_waiting, is_charging, Order}
use charging_station_system.Schema.Keys.{find_order, find_user, order_has, set_order}
use charging_station_system.Station.{
  World, Env, Action, Result, ok, err, and_then, not_found, not_owner, unfinished_order,
}
use charging_station_system.Billing.Close.{is_stranger}
use charging_station_system.Dispatch.Complete.{auto_complete_charging}
use charging_station_system.Charging.Status.{QueueStatus, ensure_order_owner, queue_status}
use charging_station_system.Charging.Submit.{
  SubmitChargingRequest, create_order, attempt_submit, after_attempt, submit_attempts,
  ensure_user_can_submit, ensure_waiting_capacity, submit_request, number_taken, next_queue_no,
  is_unique_constraint_error, add_order, waiting_row, unfinished_of,
}
use charging_station_system.Charging.Orders.{
  require_waiting_order, set_mode, set_amount, modify_mode, modify_amount,
}
use charging_station_system.Lifecycle.Statuses.{may_become, may_become_refl}
use charging_station_system.Lifecycle.Valid.{Advances-IsPreorder}
use charging_station_system.Lifecycle.Writes.{write_order, add_order-Advances}
use charging_station_system.Lifecycle.Dispatching.{found_self}
use charging_station_system.Lifecycle.Moves.{
  Moves, Reads, read-Moves, stays, then-Moves, found-Moves, unless-Moves, write-Moves, mode-Moves,
}
use charging_station_system.Lifecycle.Completing.{auto_complete-Moves}

module _ {F : Type 0} where
  owner-Reads : (i : ℕ) (user : Option ℕ) (w : World F) → Reads w (ensure_order_owner i user w)
  unfolding ensure_order_owner
  owner-Reads i none w = (_, refl)
  owner-Reads i (some u) w = elim (Option-cases (find_order i w.db.orders)) [
    | inl e ↦ (err not_found, rw e refl)
    | inr (o, e) ↦ (if is_stranger (some u) o.user_id then err not_owner else ok tt, rw e refl)
  ]

  user-Reads : (u : ℕ) (w : World F) → Reads w (ensure_user_can_submit u w)
  unfolding ensure_user_can_submit
  user-Reads u w = elim (Option-cases (find_user u w.db.users)) [
    | inl e ↦ (err not_found, rw e refl)
    | inr (x, e) ↦ (
      if is_some (find_by (unfinished_of u) w.db.orders) then err unfinished_order else ok tt,
      rw e refl,
    )
  ]

  capacity-Reads : (env : Env F) (w : World F) → Reads w (ensure_waiting_capacity env w)
  unfolding ensure_waiting_capacity
  capacity-Reads env w = (_, refl)

  -- The owner's check, and what follows it.
  pub owned-Moves :
      {B : Type 0}
      → {w : World F} → (i : ℕ) (user : Option ℕ) → (f : Unit {0} → Action F B) → Moves w (f tt w)
      → Moves w (and_then (ensure_order_owner i user w) f)
  owned-Moves {B} {w} i user f h = read-Moves _ f (owner-Reads i user w) (λ _. h)

  -- An order that is found is rewritten, and keeps its status.
  keeps_status-Moves :
      {A : Type 0}
      → {w : World F} → {r : Result A × World F} → (i : ℕ) → (f : Order F → Order F) → (o : Order F)
      → ((x : Order F) → (f x).id ≡ x.id)
      → find_order i w.db.orders ≡ some o
      → (f o).user_id ≡ o.user_id
      → (f o).submit_time ≡ o.submit_time
      → (f o).status ≡ o.status
      → Moves (record w { db = record w.db { orders = set_order i f w.db.orders } }) r
      → Moves w r
  keeps_status-Moves {A} {w} {r} i f o same found user time status h =
      write-Moves (λ db. record db { orders = set_order i f db.orders })
        (write_order i f w.db o same found
          (record {
            same_id = same o;
            same_user = user;
            same_submit_time = time;
            forward =
                subst (λ s. may_become o.status s ≡ true) (sym status) (may_become_refl o.status);
          })
          (λ c. ap is_charging status ∙ c))
        h

  -- A waiting order, found for its change.
  waiting-Moves :
      {B : Type 0}
      → {w : World F} → (i : ℕ) → (f : Order F → Action F B)
      → ((o : Order F) → find_order o.id w.db.orders ≡ some o → Moves w (f o w))
      → Moves w (and_then (require_waiting_order i w) f)
  unfolding require_waiting_order
  waiting-Moves {B} {w} i f h = elim (Option-cases (find_order i w.db.orders)) [
    | inl e ↦ rw e (stays refl)
    | inr (o, e) ↦ elim (Bool-cases (is_waiting o.status)) [
      | inl waits ↦ rw e (rw waits (h o (found_self i w.db.orders o e)))
      | inr gone ↦ rw e (rw gone (stays refl))
    ]
  ]

  -- An order gets another number.
  pub renumber-Moves :
      {A : Type 0}
      → {w : World F} → {r : Result A × World F} → (o : Order F) → (number : Codes)
      → Moves
          (record w {
            db = record w.db {
              orders = set_order o.id (λ x. record x { queue_no = number }) w.db.orders;
            };
          })
          r
      → Moves w r
  renumber-Moves {A} {w} {r} o number h =
      let f = λ (x : Order F). record x { queue_no = number } in
      elim (Option-cases (find_order o.id w.db.orders)) [
        | inl e ↦
            let same =
              ap (λ os. record w { db = record w.db { orders = os } })
                (update_first-none (order_has o.id) f w.db.orders e) in
            subst (λ v. Moves v r) same h
        | inr (x, e) ↦ keeps_status-Moves o.id f x (λ y. refl) e refl refl refl h
      ]

module _ {F : Type 0} ⦃fl : Float F⦄ (env : Env F) where
  pub status-Moves : (i : ℕ) (user : Option ℕ) (w : World F) → Moves w (queue_status env i user w)
  unfolding queue_status
  status-Moves i user w = owned-Moves i user _ (
      then-Moves _ (auto_complete-Moves env w) λ t _.
        found-Moves (find_order i (auto_complete_charging env w).1.db.orders) _ _ λ o _. stays refl)

  pub create-Moves :
      (u : ℕ) (mode : ChargeMode) (amount : F) (number : Codes) (w : World F)
      → Moves w (create_order env u mode amount number w)
  unfolding create_order
  create-Moves u mode amount number w = unless-Moves (number_taken number w.db.orders) _ _ λ free.
      write-Moves (add_order (waiting_row w.db.next_id u mode amount number env.real_ms))
        (add_order-Advances _ w.db refl) (stays refl)

  attempt-Moves :
      (u : ℕ) (dto : SubmitChargingRequest F) (w : World F) → Moves w (attempt_submit env u dto w)
  unfolding attempt_submit
  attempt-Moves u dto w =
      then-Moves _ (create-Moves u dto.charge_mode dto.requested_amount _ w)
        λ id _. then-Moves _ (mode-Moves _ _) λ v _. status-Moves id none _

  after-Moves :
      {w : World F}
      → (again : Action F (QueueStatus F)) → (r : Result (QueueStatus F) × World F) → Moves w r
      → ((w' : World F) → Moves w' (again w'))
      → Moves w (after_attempt env again r)
  after-Moves {w} again (ok s, w') h k = h
  after-Moves {w} again (err e, w') h k = elim (Bool-cases (is_unique_constraint_error env e)) [
    | inl unique ↦ rw unique (record {
      at_end = Advances-IsPreorder.transitive w.db w'.db (again w').1.db h.at_end (k w').at_end;
    })
    | inr other ↦ rw other h
  ]

  attempts-Moves :
      (left u : ℕ) (dto : SubmitChargingRequest F) (w : World F)
      → Moves w (submit_attempts env left u dto w)
  unfolding submit_attempts
  attempts-Moves zero u dto w = attempt-Moves u dto w
  attempts-Moves (suc left) u dto w =
      after-Moves (submit_attempts env left u dto) _ (attempt-Moves u dto w)
        λ w'. attempts-Moves left u dto w'

  pub submit-Moves :
      (dto : SubmitChargingRequest F) (user : Option ℕ) (w : World F)
      → Moves w (submit_request env dto user w)
  unfolding submit_request
  submit-Moves dto user w = found-Moves (first_some user dto.user_id) _ _ λ u _.
      read-Moves _ _ (user-Reads u w)
        λ a. read-Moves _ _ (capacity-Reads env w) λ b. attempts-Moves 2 u dto w

  pub modify_mode-Moves :
      (i : ℕ) (mode : ChargeMode) (user : Option ℕ) (w : World F)
      → Moves w (modify_mode env i mode user w)
  unfolding modify_mode
  modify_mode-Moves i mode user w = owned-Moves i user _ (
      waiting-Moves i _ λ o e. elim (Bool-cases (eq_mode o.charge_mode mode)) [
        | inl same ↦ rw same (status-Moves o.id none w)
        | inr other ↦ rw other (
            unless-Moves (number_taken (next_queue_no mode w.db) w.db.orders) _ _ λ free.
              keeps_status-Moves o.id (set_mode mode (next_queue_no mode w.db)) o (λ x. refl) e refl
                refl refl
                (then-Moves _ (mode-Moves _ _)
                  λ a _. then-Moves _ (mode-Moves _ _) λ b _. status-Moves o.id none _))
      ])

  pub modify_amount-Moves :
      (i : ℕ) (amount : F) (user : Option ℕ) (w : World F)
      → Moves w (modify_amount env i amount user w)
  unfolding modify_amount
  modify_amount-Moves i amount user w = owned-Moves i user _ (
      waiting-Moves i _ λ o e.
        keeps_status-Moves o.id (set_amount amount) o (λ x. refl) e refl refl refl
          (then-Moves _ (mode-Moves _ _) λ a _. status-Moves o.id none _))
