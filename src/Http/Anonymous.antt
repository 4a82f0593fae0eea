-- ===== src/Http/Anonymous.antt =====
-- What requests without a valid token can change.
use charging_station_system.Prelude.{
  ◌≡◌, refl, sym, subst, ap, ◌∙◌, none, List, [], ◌∷◌, All, inl, inr, Option-cases, Bool-cases,
}
use charging_station_system.Float.{Float}
use charging_station_system.Schema.{Codes}
use charging_station_system.Station.{World, Env, Result, ok, err}
use charging_station_system.Auth.{
  RegisterDto, LoginDto, AccountLibrary, find_named, only_admin, register, login, admin_login,
}
use charging_station_system.Auth.Registered.{login_cases, register_free, register_taken}
use charging_station_system.Http.Routes.{
  Route, Answer, HttpLibrary, Request, bearer_of, serve, respond_with, handle_request,
  register_route, login_route, admin_login_route, submit_route, orders_route, modify_mode_route,
  modify_amount_route, cancel_route, queue_status_route, start_route, stop_route,
  detail_by_id_route, detail_by_order_route, list_piles_route, pile_queue_route, power_on_route,
  power_off_route, fault_route, recover_route, reschedule_route, control_route, basic_all_route,
  basic_route, dispatch_fault_route, single_route, batch_route, report_route, stats_route,
  waiting_queue_route, clock_speed_route, set_clock_speed_route,
}
use charging_station_system.Http.Access.{role_for, handle_request_cases}
use charging_station_system.Http.Sequences.{handle_all}

module _ {F : Type 0} where
  -- Apart from the users and the next fresh key, the tables, the effects and the clock are the same.
  pub record IsSameStation (w w' : World F) : Type 0 where
    pub same_piles : w'.db.piles ≡ w.db.piles
    pub same_orders : w'.db.orders ≡ w.db.orders
    pub same_sessions : w'.db.sessions ≡ w.db.sessions
    pub same_details : w'.db.details ≡ w.db.details
    pub same_rules : w'.db.rules ≡ w.db.rules
    pub same_effects : w'.effects ≡ w.effects
    pub same_clock : w'.clock ≡ w.clock

  same_refl : (w : World F) → IsSameStation w w
  same_refl w = record {
    same_piles = refl;
    same_orders = refl;
    same_sessions = refl;
    same_details = refl;
    same_rules = refl;
    same_effects = refl;
    same_clock = refl;
  }

  same_trans : (a b c : World F) → IsSameStation a b → IsSameStation b c → IsSameStation a c
  same_trans a b c h k = record {
    same_piles = k.same_piles ∙ h.same_piles;
    same_orders = k.same_orders ∙ h.same_orders;
    same_sessions = k.same_sessions ∙ h.same_sessions;
    same_details = k.same_details ∙ h.same_details;
    same_rules = k.same_rules ∙ h.same_rules;
    same_effects = k.same_effects ∙ h.same_effects;
    same_clock = k.same_clock ∙ h.same_clock;
  }

module _ {F T : Type 0} where
  respond_same :
      {A : Type 0} (f : A → Answer F T) (w : World F) (r : Result A × World F)
      → IsSameStation w r.1
      → IsSameStation w (respond_with f r).1
  respond_same f w (ok a, w') h = h
  respond_same f w (err e, w') h = h

module _ {F T : Type 0} (lib : AccountLibrary T) where
  login_same : (dto : LoginDto) (w : World F) → (login lib dto w).1 ≡ w
  login_same dto w = elim (login_cases lib dto w) [
    | inl (u, h, e) ↦ ap (λ x. x.1) e
    | inr (h, e) ↦ ap (λ x. x.1) e
  ]

  admin_login_same : (dto : LoginDto) (w : World F) → (admin_login lib dto w).1 ≡ w
  unfolding admin_login
  admin_login_same dto w = elim (Option-cases (only_admin (find_named lib dto.username w.db))) [
    | inl e ↦ rw e refl
    | inr (u, e) ↦ elim (Bool-cases (lib.compares dto.password u.password_hash)) [
      | inl right ↦ rw e (rw right refl)
      | inr wrong ↦ rw e (rw wrong refl)
    ]
  ]

  register_same :
      ⦃fl : Float F⦄ (hash : Codes) (dto : RegisterDto F) (w : World F)
      → IsSameStation w (register lib hash dto w).1
  register_same hash dto w = elim (Option-cases (find_named lib dto.username w.db)) [
    | inl free ↦ rw (register_free lib hash dto w free) (record {
      same_piles = refl;
      same_orders = refl;
      same_sessions = refl;
      same_details = refl;
      same_rules = refl;
      same_effects = refl;
      same_clock = refl;
    })
    | inr (u, taken) ↦ rw (register_taken lib hash dto w u taken) (same_refl w)
  ]

module _ {F T : Type 0} ⦃fl : Float F⦄ (lib : HttpLibrary F T) where
  -- No token, or one that is not valid at the time of the request.
  abbrev pub IsAnonymous : Env F × Request F T → Type 0
  IsAnonymous (env, r) = bearer_of lib env r ≡ none

  serve_public :
      (env : Env F) (route : Route F) (w : World F)
      → role_for route ≡ none
      → IsSameStation w (serve lib env route none w).1
  unfolding serve role_for
  serve_public env (register_route dto) w h =
      respond_same _ w _ (register_same lib.accounts (lib.hashes dto.password) dto w)
  serve_public env (login_route dto) w h =
      respond_same _ w _
        (subst (IsSameStation w) (sym (login_same lib.accounts dto w)) (same_refl w))
  serve_public env (admin_login_route dto) w h =
      respond_same _ w _
        (subst (IsSameStation w) (sym (admin_login_same lib.accounts dto w)) (same_refl w))
  serve_public env (submit_route dto) w h = cc
  serve_public env orders_route w h = cc
  serve_public env (modify_mode_route i mode) w h = cc
  serve_public env (modify_amount_route i amount) w h = cc
  serve_public env (cancel_route i reason) w h = cc
  serve_public env (queue_status_route i) w h = cc
  serve_public env (start_route i) w h = cc
  serve_public env (stop_route i) w h = cc
  serve_public env (detail_by_id_route i) w h = cc
  serve_public env (detail_by_order_route i) w h = cc
  serve_public env list_piles_route w h = cc
  serve_public env (pile_queue_route i) w h = cc
  serve_public env (power_on_route i) w h = cc
  serve_public env (power_off_route i) w h = cc
  serve_public env (fault_route i) w h = cc
  serve_public env (recover_route i) w h = cc
  serve_public env (reschedule_route i s) w h = cc
  serve_public env (control_route i action target) w h = cc
  serve_public env basic_all_route w h = cc
  serve_public env (basic_route mode) w h = cc
  serve_public env (dispatch_fault_route i s) w h = cc
  serve_public env (single_route spots mode) w h = cc
  serve_public env (batch_route spots) w h = cc
  serve_public env (report_route t) w h = cc
  serve_public env stats_route w h = cc
  serve_public env waiting_queue_route w h = cc
  serve_public env clock_speed_route w h = cc
  serve_public env (set_clock_speed_route speed) w h = cc

  handle_anonymous :
      (env : Env F) (r : Request F T) (w : World F)
      → IsAnonymous (env, r)
      → IsSameStation w (handle_request lib env r w).1
  handle_anonymous env r w h = elim (handle_request_cases lib env r w) [
    | inl (allowed, valid, e) ↦ elim (Option-cases (role_for r.route)) [
      | inl open_to_all ↦
          let e' = rw open_to_all at e in
          subst (λ x. IsSameStation w x.1) (sym e') (serve_public env r.route w open_to_all)
      | inr (role, e') ↦ let (p, found, same) = rw e' at allowed in cc
    ]
    | inr (refused, same) ↦ subst (IsSameStation w) (sym same) (same_refl w)
  ]

  -- Requests whose tokens are missing or not valid, however many, change no order, pile, session, bill or
  -- tariff, leave the clock alone and send nothing: what they can do is to add users.
  pub handle_all_anonymous :
      (rs : List (Env F × Request F T)) (w : World F)
      → All IsAnonymous rs
      → IsSameStation w (handle_all lib rs w)
  unfolding handle_all
  handle_all_anonymous [] w h = same_refl w
  handle_all_anonymous ((env, r) ∷ rs) w (h, hs) =
      same_trans w (handle_request lib env r w).1 _ (handle_anonymous env r w h)
        (handle_all_anonymous rs (handle_request lib env r w).1 hs)
