-- ===== src/Http/Access.antt =====
-- Who reaches a handler.
use charging_station_system.Prelude.{
  ◌≡◌, ◌⊎◌, refl, sym, true, Option, none, some, inl, inr, Bool-cases, ap, ◌∙◌,
}
use charging_station_system.Float.{Float}
use charging_station_system.Schema.{UserRole, user, admin}
use charging_station_system.Station.{World, Env}
use charging_station_system.Auth.{JwtPayload}
use charging_station_system.Http.Guards.{
  Marks, unauthorized, forbidden, passed, eq_role, guards, jwt_guard,
}
use charging_station_system.Http.Routes.{
  Route, Response, response_401, response_403, response_400, handled, HttpLibrary, Request,
  marks_of, bearer_of, is_valid_body, serve, caller_id, handle_request, public_marks, marks_for,
  register_route, login_route, admin_login_route, submit_route, orders_route, modify_mode_route,
  modify_amount_route, cancel_route, queue_status_route, start_route, stop_route,
  detail_by_id_route, detail_by_order_route, list_piles_route, pile_queue_route, power_on_route,
  power_off_route, fault_route, recover_route, reschedule_route, control_route, basic_all_route,
  basic_route, dispatch_fault_route, single_route, batch_route, report_route, stats_route,
  waiting_queue_route, clock_speed_route, set_clock_speed_route,
}

-- The role for a route by its path: none for the logins and the registration, users for `charging`,
-- `user` and its aliases, administrators for what is below `admin` and `dispatch`.
unfoldable pub role_for : {F : Type 0} → Route F → Option UserRole
role_for (register_route dto) = none
role_for (login_route dto) = none
role_for (admin_login_route dto) = none
role_for (submit_route dto) = some user
role_for orders_route = some user
role_for (modify_mode_route i mode) = some user
role_for (modify_amount_route i amount) = some user
role_for (cancel_route i reason) = some user
role_for (queue_status_route i) = some user
role_for (start_route i) = some user
role_for (stop_route i) = some user
role_for (detail_by_id_route i) = some user
role_for (detail_by_order_route i) = some user
role_for list_piles_route = some admin
role_for (pile_queue_route i) = some admin
role_for (power_on_route i) = some admin
role_for (power_off_route i) = some admin
role_for (fault_route i) = some admin
role_for (recover_route i) = some admin
role_for (reschedule_route i s) = some admin
role_for (control_route i action target) = some admin
role_for basic_all_route = some admin
role_for (basic_route mode) = some admin
role_for (dispatch_fault_route i s) = some admin
role_for (single_route spots mode) = some admin
role_for (batch_route spots) = some admin
role_for (report_route t) = some admin
role_for stats_route = some admin
role_for waiting_queue_route = some admin
role_for clock_speed_route = some admin
role_for (set_clock_speed_route speed) = some admin

-- The marks ask for the role of the path.
abbrev Agrees : Marks → Option UserRole → Type 0
Agrees marks none = marks ≡ public_marks
Agrees marks (some r) = marks ≡ marks_for r

marks_of-Agrees : {F : Type 0} (route : Route F) → Agrees (marks_of route) (role_for route)
unfolding marks_of role_for
marks_of-Agrees (register_route dto) = refl
marks_of-Agrees (login_route dto) = refl
marks_of-Agrees (admin_login_route dto) = refl
marks_of-Agrees (submit_route dto) = refl
marks_of-Agrees orders_route = refl
marks_of-Agrees (modify_mode_route i mode) = refl
marks_of-Agrees (modify_amount_route i amount) = refl
marks_of-Agrees (cancel_route i reason) = refl
marks_of-Agrees (queue_status_route i) = refl
marks_of-Agrees (start_route i) = refl
marks_of-Agrees (stop_route i) = refl
marks_of-Agrees (detail_by_id_route i) = refl
marks_of-Agrees (detail_by_order_route i) = refl
marks_of-Agrees list_piles_route = refl
marks_of-Agrees (pile_queue_route i) = refl
marks_of-Agrees (power_on_route i) = refl
marks_of-Agrees (power_off_route i) = refl
marks_of-Agrees (fault_route i) = refl
marks_of-Agrees (recover_route i) = refl
marks_of-Agrees (reschedule_route i s) = refl
marks_of-Agrees (control_route i action target) = refl
marks_of-Agrees basic_all_route = refl
marks_of-Agrees (basic_route mode) = refl
marks_of-Agrees (dispatch_fault_route i s) = refl
marks_of-Agrees (single_route spots mode) = refl
marks_of-Agrees (batch_route spots) = refl
marks_of-Agrees (report_route t) = refl
marks_of-Agrees stats_route = refl
marks_of-Agrees waiting_queue_route = refl
marks_of-Agrees clock_speed_route = refl
marks_of-Agrees (set_clock_speed_route speed) = refl

eq_role→≡ : (a b : UserRole) → eq_role a b ≡ true → a ≡ b
eq_role→≡ user user e = refl
eq_role→≡ admin admin e = refl
eq_role→≡ user admin e = cc
eq_role→≡ admin user e = cc

-- The caller may pass, as far as the role goes.
abbrev pub Allowed : Option UserRole → Option JwtPayload → Type 0
Allowed none bearer = Unit
Allowed (some r) bearer = (p : JwtPayload) × (bearer ≡ some p) × (p.role ≡ r)

-- The user whom the handler sees.
abbrev pub seen_caller : Option UserRole → Option JwtPayload → Option JwtPayload
seen_caller none bearer = none
seen_caller (some r) bearer = bearer

guards_public : (bearer : Option JwtPayload) → guards public_marks bearer ≡ passed none
unfolding guards jwt_guard
guards_public bearer = refl

guards_role :
    (r : UserRole) (bearer : Option JwtPayload)
    → (Allowed (some r) bearer × (guards (marks_for r) bearer ≡ passed bearer))
      ⊎ ((guards (marks_for r) bearer ≡ unauthorized) ⊎ (guards (marks_for r) bearer ≡ forbidden))
unfolding guards jwt_guard
guards_role r none = inr (inl refl)
guards_role r (some p) = elim (Bool-cases (eq_role r p.role)) [
  | inl same ↦ inl ((p, refl, sym (eq_role→≡ r p.role same)), rw same refl)
  | inr other ↦ inr (inr (rw other refl))
]

guards_cases :
    (marks : Marks) (o : Option UserRole) (bearer : Option JwtPayload)
    → Agrees marks o
    → (Allowed o bearer × (guards marks bearer ≡ passed (seen_caller o bearer)))
      ⊎ ((guards marks bearer ≡ unauthorized) ⊎ (guards marks bearer ≡ forbidden))
guards_cases marks none bearer agrees =
    inl (tt, ap (λ m. guards m bearer) agrees ∙ guards_public bearer)
guards_cases marks (some r) bearer agrees = rw agrees (guards_role r bearer)

-- A refusal that comes before the handler.
abbrev pub IsRefusal : {F T : Type 0} → Response F T → Type 0
IsRefusal response_401 = Unit
IsRefusal response_403 = Unit
IsRefusal response_400 = Unit
IsRefusal (handled a) = ⊥

module _ {F T : Type 0} ⦃fl : Float F⦄ (lib : HttpLibrary F T) (env : Env F) where
  -- Every request is either served, and then its token, if the route's path asks for one, was verified
  -- and is of the role that the path asks for, or refused before its handler, and then nothing changes.
  pub handle_request_cases :
      (r : Request F T) (w : World F)
      → (Allowed (role_for r.route) (bearer_of lib env r)
          × (is_valid_body lib env r.route ≡ true)
          × (handle_request lib env r w
              ≡ serve lib env r.route
                  (caller_id (seen_caller (role_for r.route) (bearer_of lib env r)))
                  w))
        ⊎ (IsRefusal (handle_request lib env r w).0 × ((handle_request lib env r w).1 ≡ w))
  unfolding handle_request
  handle_request_cases r w =
      elim (guards_cases (marks_of r.route) (role_for r.route) (bearer_of lib env r)
        (marks_of-Agrees r.route)) [
          | inl (allowed, e) ↦ elim (Bool-cases (is_valid_body lib env r.route)) [
            | inl valid ↦ inl (allowed, valid, rw e (rw valid refl))
            | inr invalid ↦ inr (rw e (rw invalid (tt, refl)))
          ]
          | inr (inl e) ↦ inr (rw e (tt, refl))
          | inr (inr e) ↦ inr (rw e (tt, refl))
        ]
