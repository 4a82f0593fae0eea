-- ===== src/Http/Owners.antt =====
-- What callers reach of the orders of others.
use charging_station_system.Prelude.{
  ℕ, ◌≡◌, ◌⊎◌, refl, ap, ◌∙◌, Bool, false, ◌==◌, Option, none, some, inl, inr,
}
use charging_station_system.Float.{Float}
use charging_station_system.Schema.{Codes, ChargeMode, user, Order}
use charging_station_system.Schema.Keys.{find_order}
use charging_station_system.Station.{World, Env, err, not_owner}
use charging_station_system.Auth.{JwtPayload}
use charging_station_system.Charging.Status.{ensure_order_owner, queue_status}
use charging_station_system.Charging.Orders.{modify_mode, modify_amount, cancel, start, stop}
use charging_station_system.Http.Routes.{
  Route, Response, handled, HttpLibrary, Request, bearer_of, serve, caller_id, handle_request,
  modify_mode_route, modify_amount_route, cancel_route, queue_status_route, start_route, stop_route,
}
use charging_station_system.Http.Access.{IsRefusal, role_for, Allowed, handle_request_cases}

-- The route is one of those that the users have for an order, and it names this one.
pub data Names {F : Type 0} : Route F → ℕ → Type 0 where
  names_modify_mode : (i : ℕ) (mode : ChargeMode) → Names (modify_mode_route i mode) i
  names_modify_amount : (i : ℕ) (amount : F) → Names (modify_amount_route i amount) i
  names_cancel : (i : ℕ) (reason : Option Codes) → Names (cancel_route i reason) i
  names_queue_status : (i : ℕ) → Names (queue_status_route i) i
  names_start : (i : ℕ) → Names (start_route i) i
  names_stop : (i : ℕ) → Names (stop_route i) i

Names-role : {F : Type 0} (route : Route F) (i : ℕ) → Names route i → role_for route ≡ some user
unfolding role_for
Names-role _ _ (names_modify_mode i mode) = refl
Names-role _ _ (names_modify_amount i amount) = refl
Names-role _ _ (names_cancel i reason) = refl
Names-role _ _ (names_queue_status i) = refl
Names-role _ _ (names_start i) = refl
Names-role _ _ (names_stop i) = refl

module _ {F T : Type 0} ⦃fl : Float F⦄ (lib : HttpLibrary F T) (env : Env F) (w : World F)
    (u : ℕ) where
  -- The order is there and of somebody else.
  abbrev IsForeign : ℕ → Type 0
  IsForeign i = (o : Order F) × (find_order i w.db.orders ≡ some o) × ((o.user_id == u) ≡ false)

  foreign_lem : (i : ℕ) → IsForeign i → ensure_order_owner i (some u) w ≡ (err not_owner, w)
  unfolding ensure_order_owner
  foreign_lem i (o, found, other) = rw found (rw other refl)

  modify_mode-foreign :
      (i : ℕ) (mode : ChargeMode)
      → IsForeign i
      → modify_mode env i mode (some u) w ≡ (err not_owner, w)
  unfolding modify_mode
  modify_mode-foreign i mode h = rw (foreign_lem i h) refl

  modify_amount-foreign :
      (i : ℕ) (amount : F)
      → IsForeign i
      → modify_amount env i amount (some u) w ≡ (err not_owner, w)
  unfolding modify_amount
  modify_amount-foreign i amount h = rw (foreign_lem i h) refl

  cancel-foreign :
      (i : ℕ) (reason : Option Codes)
      → IsForeign i
      → cancel env i reason (some u) w ≡ (err not_owner, w)
  unfolding cancel
  cancel-foreign i reason h = rw (foreign_lem i h) refl

  queue_status-foreign : (i : ℕ) → IsForeign i → queue_status env i (some u) w ≡ (err not_owner, w)
  unfolding queue_status
  queue_status-foreign i h = rw (foreign_lem i h) refl

  start-foreign : (i : ℕ) → IsForeign i → start env i (some u) w ≡ (err not_owner, w)
  unfolding start
  start-foreign i h = rw (foreign_lem i h) refl

  stop-foreign : (i : ℕ) → IsForeign i → stop env i (some u) w ≡ (err not_owner, w)
  unfolding stop
  stop-foreign i h = rw (foreign_lem i h) refl

  serve_foreign :
      (route : Route F) (i : ℕ)
      → Names route i
      → IsForeign i
      → serve lib env route (some u) w ≡ (handled (err not_owner), w)
  unfolding serve
  serve_foreign _ _ (names_modify_mode i mode) h = rw (modify_mode-foreign i mode h) refl
  serve_foreign _ _ (names_modify_amount i amount) h = rw (modify_amount-foreign i amount h) refl
  serve_foreign _ _ (names_cancel i reason) h = rw (cancel-foreign i reason h) refl
  serve_foreign _ _ (names_queue_status i) h = rw (queue_status-foreign i h) refl
  serve_foreign _ _ (names_start i) h = rw (start-foreign i h) refl
  serve_foreign _ _ (names_stop i) h = rw (stop-foreign i h) refl

module _ {F T : Type 0} ⦃fl : Float F⦄ (lib : HttpLibrary F T) (env : Env F) where
  -- The request was refused before its handler, or by the handler because the order is another's.
  abbrev pub IsDenied : Response F T → Type 0
  IsDenied response = IsRefusal response ⊎ (response ≡ handled (err not_owner))

  -- The token is of the order's owner.
  abbrev pub is_owner : Option JwtPayload → Order F → Bool
  is_owner none o = false
  is_owner (some p) o = o.user_id == p.user_id

  denied_lem :
      (r : Request F T) (w : World F) (i : ℕ) (o : Order F) (bearer : Option JwtPayload)
      → Names r.route i
      → find_order i w.db.orders ≡ some o
      → is_owner bearer o ≡ false
      → Allowed (some user) bearer
      → serve lib env r.route (caller_id bearer) w ≡ (handled (err not_owner), w)
  denied_lem r w i o none names found other (p, e, h) = cc
  denied_lem r w i o (some q) names found other allowed =
      serve_foreign lib env w q.user_id r.route i names (o, found, other)

  -- A request for an order of somebody else, by any of the users' routes for an order, is denied and
  -- changes nothing, whatever token it bears.
  pub handle_request_foreign :
      (r : Request F T) (w : World F) (i : ℕ) (o : Order F)
      → Names r.route i
      → find_order i w.db.orders ≡ some o
      → is_owner (bearer_of lib env r) o ≡ false
      → IsDenied (handle_request lib env r w).0 × ((handle_request lib env r w).1 ≡ w)
  handle_request_foreign r w i o names found other =
      let role = Names-role r.route i names in
      elim (handle_request_cases lib env r w) [
        | inl (allowed, valid, e) ↦
            let denied =
              denied_lem r w i o (bearer_of lib env r) names found other (rw role at allowed) in
            let e' = (rw role at e) ∙ denied in (inr (ap (λ x. x.0) e'), ap (λ x. x.1) e')
        | inr (refused, same) ↦ (inl refused, same)
      ]
