-- ===== src/Http/Sequences.antt =====
-- Any requests, one after another, against the invariant of the tables.
use charging_station_system.Prelude.{
  ℕ, suc, refl, sym, subst, Option, none, some, List, [], ◌∷◌, ◌++◌, inl, inr, Below-suc, is_some,
  not,
}
use charging_station_system.Float.{Float}
use charging_station_system.Schema.{Codes, User, Detail, Db}
use charging_station_system.Schema.Keys.{find_order, find_session}
use charging_station_system.Station.{World, Env, Result, ok, err}
use charging_station_system.Auth.{
  RegisterDto, LoginDto, AccountLibrary, find_named, only_admin, user_row, register, login,
  admin_login,
}
use charging_station_system.Billing.Close.{is_stranger, dto_for, detail_by_order, detail_by_id}
use charging_station_system.Charging.History.{list_orders}
use charging_station_system.Piles.Views.{pile_queue}
use charging_station_system.Reports.Pile.{list_report}
use charging_station_system.Reports.Dashboard.{stats, waiting_queue}
use charging_station_system.Lifecycle.Statuses.{Evolves, Evolves-refl}
use charging_station_system.Lifecycle.Valid.{
  IsValid, order_id, session_id, Advances, Advances-IsPreorder,
}
use charging_station_system.Lifecycle.Moves.{Moves, stays, write-Moves, found-Moves, unless-Moves}
use charging_station_system.Lifecycle.Calls.{
  amount_call, basic_call, batch_call, cancel_call, control_call, fault_call, list_call, mode_call,
  power_off_call, power_on_call, recover_call, reschedule_call, single_call, start_call,
  status_call, stop_call, submit_call, tick_call, perform, perform-Advances,
}
use charging_station_system.Http.Routes.{
  Route, Answer, HttpLibrary, Request, serve, respond_with, handle_request, normalize_strategy,
  admin_login_route, basic_all_route, basic_route, batch_route, cancel_route, control_route,
  detail_by_id_route, detail_by_order_route, dispatch_fault_route, fault_route, list_piles_route,
  login_route, modify_amount_route, modify_mode_route, orders_route, pile_queue_route,
  power_off_route, power_on_route, queue_status_route, recover_route, register_route, report_route,
  reschedule_route, single_route, start_route, stats_route, stop_route, submit_route,
  waiting_queue_route, clock_speed_route, set_clock_speed_route,
}
use charging_station_system.Http.Access.{handle_request_cases}

module _ {F T : Type 0} where
  respond-Advances :
      {A : Type 0} (f : A → Answer F T) (w : World F) (r : Result A × World F)
      → Advances w.db r.1.db
      → Advances w.db (respond_with f r).1.db
  respond-Advances f w (ok a, w') h = h
  respond-Advances f w (err e, w') h = h

module _ {F T : Type 0} (lib : AccountLibrary T) where
  login-Moves : (dto : LoginDto) (w : World F) → Moves w (login lib dto w)
  unfolding login
  login-Moves dto w =
      found-Moves (find_named lib dto.username w.db) _ _ λ u _.
        unless-Moves (not (lib.compares dto.password u.password_hash)) _ _ λ right. stays refl

  admin_login-Moves : (dto : LoginDto) (w : World F) → Moves w (admin_login lib dto w)
  unfolding admin_login
  admin_login-Moves dto w =
      found-Moves (only_admin (find_named lib dto.username w.db)) _ _ λ u _.
        unless-Moves (not (lib.compares dto.password u.password_hash)) _ _ λ right. stays refl

  pub add_user-Advances :
      (us : List (User F)) (db : Db F)
      → Advances db (record db { users = us; next_id = suc db.next_id })
  add_user-Advances us db v = (
    record {
      orders_distinct = v.orders_distinct;
      orders_below = Below-suc order_id db.next_id db.orders v.orders_below;
      sessions_distinct = v.sessions_distinct;
      sessions_below = Below-suc session_id db.next_id db.sessions v.sessions_below;
      piles_distinct = v.piles_distinct;
      linked = v.linked;
      single = v.single;
    },
    Evolves-refl db.orders,
  )

  register-Moves :
      ⦃fl : Float F⦄ (hash : Codes) (dto : RegisterDto F) (w : World F)
      → Moves w (register lib hash dto w)
  unfolding register
  register-Moves hash dto w = unless-Moves (is_some (find_named lib dto.username w.db)) _ _ λ _.
      write-Moves
        (λ db. record db {
          users = db.users ++ (user_row w.db.next_id hash dto ∷ []);
          next_id = suc db.next_id;
        })
        (add_user-Advances _ w.db) (stays refl)

module _ {F : Type 0} ⦃fl : Float F⦄ where
  dto-Moves : (found : Option (Detail F)) (u : Option ℕ) (w : World F) → Moves w (dto_for found u w)
  unfolding dto_for
  dto-Moves found u w = found-Moves found _ _ λ d _.
      found-Moves (find_order d.order_id w.db.orders) _ _ λ o _.
        found-Moves (find_session d.session_id w.db.sessions) _ _
          λ s _. unless-Moves (is_stranger u o.user_id) _ _ λ _. stays refl

  detail_by_id-Moves : (i : ℕ) (u : Option ℕ) (w : World F) → Moves w (detail_by_id i u w)
  unfolding detail_by_id
  detail_by_id-Moves i u w = dto-Moves _ u w

  detail_by_order-Moves : (i : ℕ) (u : Option ℕ) (w : World F) → Moves w (detail_by_order i u w)
  unfolding detail_by_order
  detail_by_order-Moves i u w = dto-Moves _ u w

module _ {F T : Type 0} ⦃fl : Float F⦄ (lib : HttpLibrary F T) (env : Env F) where
  serve-Advances :
      (route : Route F) (u : Option ℕ) (w : World F) → Advances w.db (serve lib env route u w).1.db
  unfolding serve perform list_orders pile_queue list_report stats waiting_queue
  serve-Advances (register_route dto) u w =
      respond-Advances _ w _ (register-Moves lib.accounts (lib.hashes dto.password) dto w).at_end
  serve-Advances (login_route dto) u w =
      respond-Advances _ w _ (login-Moves lib.accounts dto w).at_end
  serve-Advances (admin_login_route dto) u w =
      respond-Advances _ w _ (admin_login-Moves lib.accounts dto w).at_end
  serve-Advances (submit_route dto) u w =
      respond-Advances _ w _ (perform-Advances env (submit_call dto u) w)
  serve-Advances orders_route u w = Advances-IsPreorder.reflexive w.db
  serve-Advances (modify_mode_route i mode) u w =
      respond-Advances _ w _ (perform-Advances env (mode_call i mode u) w)
  serve-Advances (modify_amount_route i amount) u w =
      respond-Advances _ w _ (perform-Advances env (amount_call i amount u) w)
  serve-Advances (cancel_route i reason) u w =
      respond-Advances _ w _ (perform-Advances env (cancel_call i reason u) w)
  serve-Advances (queue_status_route i) u w =
      respond-Advances _ w _ (perform-Advances env (status_call i u) w)
  serve-Advances (start_route i) u w =
      respond-Advances _ w _ (perform-Advances env (start_call i u) w)
  serve-Advances (stop_route i) u w =
      respond-Advances _ w _ (perform-Advances env (stop_call i u) w)
  serve-Advances (detail_by_id_route i) u w =
      respond-Advances _ w _ (detail_by_id-Moves i u w).at_end
  serve-Advances (detail_by_order_route i) u w =
      respond-Advances _ w _ (detail_by_order-Moves i u w).at_end
  serve-Advances list_piles_route u w = respond-Advances _ w _ (perform-Advances env list_call w)
  serve-Advances (pile_queue_route i) u w = Advances-IsPreorder.reflexive w.db
  serve-Advances (power_on_route i) u w =
      respond-Advances _ w _ (perform-Advances env (power_on_call i) w)
  serve-Advances (power_off_route i) u w =
      respond-Advances _ w _ (perform-Advances env (power_off_call i) w)
  serve-Advances (fault_route i) u w =
      respond-Advances _ w _ (perform-Advances env (fault_call i) w)
  serve-Advances (recover_route i) u w =
      respond-Advances _ w _ (perform-Advances env (recover_call i) w)
  serve-Advances (reschedule_route i s) u w =
      respond-Advances _ w _ (perform-Advances env (reschedule_call i (normalize_strategy s)) w)
  serve-Advances (control_route i action target) u w =
      respond-Advances _ w _ (perform-Advances env (control_call i action target) w)
  serve-Advances basic_all_route u w = respond-Advances _ w _ (perform-Advances env tick_call w)
  serve-Advances (basic_route mode) u w =
      respond-Advances _ w _ (perform-Advances env (basic_call mode) w)
  serve-Advances (dispatch_fault_route i s) u w =
      respond-Advances _ w _ (perform-Advances env (reschedule_call i s) w)
  serve-Advances (single_route spots mode) u w =
      respond-Advances _ w _ (perform-Advances env (single_call spots mode) w)
  serve-Advances (batch_route spots) u w =
      respond-Advances _ w _ (perform-Advances env (batch_call spots) w)
  serve-Advances (report_route none) u w = Advances-IsPreorder.reflexive w.db
  serve-Advances (report_route (some t)) u w = Advances-IsPreorder.reflexive w.db
  serve-Advances stats_route u w = Advances-IsPreorder.reflexive w.db
  serve-Advances waiting_queue_route u w = Advances-IsPreorder.reflexive w.db
  serve-Advances clock_speed_route u w = Advances-IsPreorder.reflexive w.db
  serve-Advances (set_clock_speed_route speed) u w = Advances-IsPreorder.reflexive w.db

  handle_request-Advances :
      (r : Request F T) (w : World F) → Advances w.db (handle_request lib env r w).1.db
  handle_request-Advances r w = elim (handle_request_cases lib env r w) [
    | inl (allowed, valid, e) ↦
        subst (λ x. Advances w.db x.1.db) (sym e) (serve-Advances r.route _ w)
    | inr (refused, same) ↦
        subst (λ x. Advances w.db x.db) (sym same) (Advances-IsPreorder.reflexive w.db)
  ]

module _ {F T : Type 0} ⦃fl : Float F⦄ (lib : HttpLibrary F T) where
  -- Requests, each with what it reads of its environment, one after another.
  unfoldable pub handle_all : List (Env F × Request F T) → World F → World F
  handle_all [] w = w
  handle_all ((env, r) ∷ rs) w = handle_all rs (handle_request lib env r w).1

  -- Whatever requests are sent, by whomever and with whatever tokens, and whether they are refused, fail
  -- or succeed: the invariant of the tables (distinct keys below the next fresh one, every active
  -- session linked to a charging order, at most one active session for each order) is kept, and every
  -- order is still there with its key, user and submit time and a status that it may have reached.
  pub handle_all-IsValid :
      (rs : List (Env F × Request F T)) (w : World F)
      → IsValid w.db
      → IsValid (handle_all rs w).db × Evolves w.db.orders (handle_all rs w).db.orders
  unfolding handle_all
  handle_all-IsValid [] w v = (v, Evolves-refl w.db.orders)
  handle_all-IsValid ((env, r) ∷ rs) w v =
      Advances-IsPreorder.transitive w.db (handle_request lib env r w).1.db _
        (handle_request-Advances lib env r w) (handle_all-IsValid rs (handle_request lib env r w).1)
        v
