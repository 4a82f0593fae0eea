-- ===== src/Http/Routes.antt =====
-- The routes, each with its guards' marks and the handler that it calls. A route and its alias
-- are one route.
mod Handlers
use charging_station_system.Prelude.{
  ℕ, Bool, true, false, ◌&&◌, Option, none, some, List, [], ◌∷◌, if◌then◌else◌,
}
use charging_station_system.Float.{Float, nat, at_least}
use charging_station_system.Schema.{
  Codes, ChargeMode, UserRole, user, admin, WorkingState, DispatchStrategyType, priority, Pile,
  Detail,
}
use charging_station_system.Station.{World, Env, Result, ok, err, Action, Applied}
use charging_station_system.Auth.{
  RegisterDto, LoginDto, JwtPayload, LoginAnswer, AccountLibrary, register, login, admin_login,
}
use charging_station_system.Billing.Close.{DetailDto, detail_by_order, detail_by_id}
use charging_station_system.Charging.Status.{QueueStatus, queue_status}
use charging_station_system.Charging.Submit.{SubmitChargingRequest, submit_request}
use charging_station_system.Charging.Orders.{
  Canceled, Started, modify_mode, modify_amount, cancel, start, stop,
}
use charging_station_system.Charging.History.{OrderView, list_orders}
use charging_station_system.Piles.Power.{power_on, power_off}
use charging_station_system.Piles.Fault.{FaultReport, report_fault}
use charging_station_system.Piles.Control.{ControlAction, Controlled, recover, control}
use charging_station_system.Piles.Views.{ListedPile, QueuedRow, list_piles, pile_queue}
use charging_station_system.Dispatch.Trigger.{
  trigger_basic, trigger_basic_all, trigger_fault_reschedule, trigger_single_optimization,
  trigger_batch_optimization,
}
use charging_station_system.Reports.Range.{TimeType, day}
use charging_station_system.Reports.Pile.{PileReport, list_report}
use charging_station_system.Reports.Dashboard.{Stats, WaitingOrder, stats, waiting_queue}
use charging_station_system.Http.Guards.{Marks, Passage, unauthorized, forbidden, passed, guards}
pub use Handlers.*

pub data Route (F : Type 0) : Type 0 where
  register_route : RegisterDto F → Route F
  login_route admin_login_route : LoginDto → Route F
  submit_route : SubmitChargingRequest F → Route F
  orders_route : Route F
  modify_mode_route : ℕ → ChargeMode → Route F
  modify_amount_route : ℕ → F → Route F
  cancel_route : ℕ → Option Codes → Route F
  queue_status_route start_route stop_route : ℕ → Route F
  detail_by_id_route detail_by_order_route : ℕ → Route F
  list_piles_route : Route F
  pile_queue_route power_on_route power_off_route fault_route recover_route : ℕ → Route F
  reschedule_route : ℕ → StrategyText → Route F
  control_route : ℕ → ControlAction → Option WorkingState → Route F
  basic_all_route : Route F
  basic_route : ChargeMode → Route F
  dispatch_fault_route : ℕ → DispatchStrategyType → Route F
  single_route : ℕ → ChargeMode → Route F
  batch_route : ℕ → Route F
  report_route : Option TimeType → Route F
  stats_route waiting_queue_route clock_speed_route : Route F
  set_clock_speed_route : F → Route F

abbrev pub public_marks : Marks
public_marks = record { is_public = true; required_roles = [] }

abbrev pub marks_for : UserRole → Marks
marks_for r = record { is_public = false; required_roles = r ∷ [] }

-- The decorators of the route's handler and controller.
unfoldable pub marks_of : {F : Type 0} → Route F → Marks
marks_of (register_route dto) = public_marks
marks_of (login_route dto) = public_marks
marks_of (admin_login_route dto) = public_marks
marks_of (submit_route dto) = marks_for user
marks_of orders_route = marks_for user
marks_of (modify_mode_route i mode) = marks_for user
marks_of (modify_amount_route i amount) = marks_for user
marks_of (cancel_route i reason) = marks_for user
marks_of (queue_status_route i) = marks_for user
marks_of (start_route i) = marks_for user
marks_of (stop_route i) = marks_for user
marks_of (detail_by_id_route i) = marks_for user
marks_of (detail_by_order_route i) = marks_for user
marks_of _ = marks_for admin

pub record Request (F T : Type 0) : Type 0 where
  pub bearer : Option T
  pub route : Route F

-- `@CurrentUser('userId')`
abbrev pub caller_id : Option JwtPayload → Option ℕ
caller_id none = none
caller_id (some p) = some p.user_id

module _ {F T : Type 0} ⦃fl : Float F⦄ (lib : HttpLibrary F T) (env : Env F) where
  -- `@IsNumber() @Min(1)`
  abbrev pub is_amount : F → Bool
  is_amount x = lib.is_number x && at_least x (nat 1)

  abbrev is_optional_amount : Option F → Bool
  is_optional_amount none = true
  is_optional_amount (some x) = is_amount x

  -- The numbers in the bodies that the ValidationPipe checks.
  unfoldable pub is_valid_body : Route F → Bool
  is_valid_body (register_route dto) = is_optional_amount dto.battery_capacity
  is_valid_body (submit_route dto) = is_amount dto.requested_amount
  is_valid_body (modify_amount_route i amount) = is_amount amount
  is_valid_body _ = true

  -- The handlers of the controllers.
  unfoldable pub serve : Route F → Option ℕ → World F → Response F T × World F
  serve (register_route dto) u w = register_handler lib env dto w
  serve (login_route dto) u w = login_handler lib env dto w
  serve (admin_login_route dto) u w = admin_login_handler lib env dto w
  serve (submit_route dto) u w = submit_handler lib env dto u w
  serve orders_route u w = orders_handler lib env u w
  serve (modify_mode_route i mode) u w = modify_mode_handler lib env i mode u w
  serve (modify_amount_route i amount) u w = modify_amount_handler lib env i amount u w
  serve (cancel_route i reason) u w = cancel_handler lib env i reason u w
  serve (queue_status_route i) u w = queue_status_handler lib env i u w
  serve (start_route i) u w = start_handler lib env i u w
  serve (stop_route i) u w = stop_handler lib env i u w
  serve (detail_by_id_route i) u w = detail_by_id_handler lib env i u w
  serve (detail_by_order_route i) u w = detail_by_order_handler lib env i u w
  serve list_piles_route u w = list_piles_handler lib env w
  serve (pile_queue_route i) u w = pile_queue_handler lib env i w
  serve (power_on_route i) u w = power_on_handler lib env i w
  serve (power_off_route i) u w = power_off_handler lib env i w
  serve (fault_route i) u w = fault_handler lib env i w
  serve (recover_route i) u w = recover_handler lib env i w
  serve (reschedule_route i s) u w = reschedule_handler lib env i s w
  serve (control_route i action target) u w = control_handler lib env i action target w
  serve basic_all_route u w = basic_all_handler lib env w
  serve (basic_route mode) u w = basic_handler lib env mode w
  serve (dispatch_fault_route i s) u w = dispatch_fault_handler lib env i s w
  serve (single_route spots mode) u w = single_handler lib env spots mode w
  serve (batch_route spots) u w = batch_handler lib env spots w
  serve (report_route t) u w = report_handler lib env t w
  serve stats_route u w = stats_handler lib env w
  serve waiting_queue_route u w = waiting_queue_handler lib env w
  serve clock_speed_route u w = clock_speed_handler lib env w
  serve (set_clock_speed_route speed) u w = changed_speed_handler lib env speed w

  -- The payload of the request's token.
  abbrev pub bearer_of : Request F T → Option JwtPayload
  bearer_of r = elim r.bearer [ none ↦ none | some t ↦ lib.verifies env.real_ms t ]

  abbrev pub after_guards : Route F → Passage → World F → Response F T × World F
  after_guards route unauthorized w = (response_401, w)
  after_guards route forbidden w = (response_403, w)
  after_guards route (passed caller) w =
      if is_valid_body route then serve route (caller_id caller) w else (response_400, w)

  -- A request, through the guards and the pipe to its handler.
  unfoldable pub handle_request : Request F T → World F → Response F T × World F
  unfolding guards marks_of is_valid_body serve
  handle_request r w = after_guards r.route (guards (marks_of r.route) (bearer_of r)) w
