-- ===== src/Charging/Submit/Refused.antt =====
-- When `submitRequest` refuses.
use charging_station_system.Prelude.{
  ℕ, ◌≡◌, ◌≤◌, refl, ap, ◌∙◌, ◌⊎◌, inl, inr, true, false, Option, none, some, List, [], ◌∷◌, arith,
  first_some, or_else, is_some, find_by, count_by, leb, ◌==◌, ==_refl, Bool-cases, Option-cases,
}
use charging_station_system.Float.{Float}
use charging_station_system.Schema.{OrderStatus, is_waiting, is_unfinished, is_terminal, Order, Db}
use charging_station_system.Schema.Keys.{find_user, find_order, order_has}
use charging_station_system.Station.{
  World, Env, Error, err, not_found, unfinished_order, waiting_full,
}
use charging_station_system.Charging.Submit.{
  SubmitChargingRequest, ensure_user_can_submit, ensure_waiting_capacity, unfinished_of,
  submit_request,
}

some-same : {A : Type 0} {a b : A} → some a ≡ some b → a ≡ b
some-same e = cc

unfinished_lem : (s : OrderStatus) → is_terminal s ≡ false → is_unfinished s ≡ true
unfinished_lem s h = ground arith

module _ {F : Type 0} ⦃fl : Float F⦄ where
  -- An order of the user that is neither finished nor canceled nor aborted.
  abbrev pub HasUnfinished : ℕ → Db F → Type 0
  HasUnfinished u db =
      (i : ℕ) × (o : Order F) × (find_order i db.orders ≡ some o)
      × (o.user_id ≡ u)
      × (is_terminal o.status ≡ false)

  -- An unfinished order that is found by its key is among those that the guard looks for.
  unfinished_found :
      (u i : ℕ) (o : Order F) (os : List (Order F))
      → find_order i os ≡ some o
      → o.user_id ≡ u
      → is_terminal o.status ≡ false
      → is_some (find_by (unfinished_of u) os) ≡ true
  unfinished_found u i o [] found owner unended = cc
  unfinished_found u i o (x ∷ xs) found owner unended = elim (Bool-cases (order_has i x)) [
    | inl here ↦
        let same : x ≡ o = some-same (rw here at found) in
        let owned : (x.user_id == u) ≡ true =
          ap (λ y. y.user_id == u) same ∙ rw owner (==_refl u) in
        let open_status = ap (λ y. is_unfinished y.status) same ∙ unfinished_lem o.status unended in
        rw owned (rw open_status refl)
    | inr other ↦ elim (Bool-cases (unfinished_of u x)) [
      | inl it ↦ rw it refl
      | inr another ↦ rw another (unfinished_found u i o xs (rw other at found) owner unended)
    ]
  ]

  -- The user is unknown, or has an order that has not ended, or the waiting area is full.
  abbrev pub MayNotSubmit : Env F → ℕ → Db F → Type 0
  MayNotSubmit env u db =
      (find_user u db.users ≡ none)
      ⊎ (HasUnfinished u db
          ⊎ (or_else env.waiting_area_size 20 ≤ count_by (λ o. is_waiting o.status) db.orders))

  -- A request of a user who is unknown, or has an order that is neither finished nor canceled nor
  -- aborted, or that finds the waiting area full, is refused, and nothing changes.
  pub submit_request_refused :
      (env : Env F) (dto : SubmitChargingRequest F) (user : Option ℕ) (u : ℕ) (w : World F)
      → first_some user dto.user_id ≡ some u
      → MayNotSubmit env u w.db
      → (e : Error) × (submit_request env dto user w ≡ (err e, w))
  unfolding submit_request ensure_user_can_submit ensure_waiting_capacity
  submit_request_refused env dto user u w named (inl unknown) =
      (not_found, rw named (rw unknown refl))
  submit_request_refused env dto user u w named (inr (inl (i, o, found, owner, unended))) =
      let unfinished = unfinished_found u i o w.db.orders found owner unended in
      elim (Option-cases (find_user u w.db.users)) [
        | inl e ↦ (not_found, rw named (rw e refl))
        | inr (x, e) ↦ (unfinished_order, rw named (rw e (rw unfinished refl)))
      ]
  submit_request_refused env dto user u w named (inr (inr full)) =
      let at_limit : leb (or_else env.waiting_area_size 20)
            (count_by (λ o. is_waiting o.status) w.db.orders)
          ≡ true =
        ground arith in
      elim (Option-cases (find_user u w.db.users)) [
        | inl e ↦ (not_found, rw named (rw e refl))
        | inr (x, e) ↦ elim (Bool-cases (is_some (find_by (unfinished_of u) w.db.orders))) [
          | inl taken ↦ (unfinished_order, rw named (rw e (rw taken refl)))
          | inr free ↦ (waiting_full, rw named (rw e (rw free (rw at_limit refl))))
        ]
      ]
