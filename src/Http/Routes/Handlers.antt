-- ===== src/Http/Routes/Handlers.antt =====
-- The handlers of the controllers below apps/server/src/modules, and what they answer with. A handler of
-- an alias calls the same method.
use charging_station_system.Prelude.{ℕ, Bool, Option, none, some, List}
use charging_station_system.Float.{Float}
use charging_station_system.Schema.{
  Codes, ChargeMode, WorkingState, DispatchStrategyType, priority, Pile, Detail,
}
use charging_station_system.Station.{World, Env, Result, ok, err, Applied}
use charging_station_system.Auth.{
  RegisterDto, LoginDto, JwtPayload, LoginAnswer, AccountLibrary, register, login, admin_login,
}
use charging_station_system.Billing.Close.{DetailDto, detail_by_order, detail_by_id}
use charging_station_system.Charging.Status.{QueueStatus, queue_status}
use charging_station_system.Charging.Submit.{SubmitChargingRequest, submit_request}
use charging_station_system.Charging.Orders.{
  Canceled, Started, modify_mode, modify_amount, cancel, start, stop,
}
use charging_station_system.Charging.History.{OrderView, list_orders}
use charging_station_system.Piles.Power.{power_on, power_off}
use charging_station_system.Piles.Fault.{FaultReport, report_fault}
use charging_station_system.Piles.Control.{ControlAction, Controlled, recover, control}
use charging_station_system.Piles.Views.{ListedPile, QueuedRow, list_piles, pile_queue}
use charging_station_system.Dispatch.Trigger.{
  trigger_basic, trigger_basic_all, trigger_fault_reschedule, trigger_single_optimization,
  trigger_batch_optimization,
}
use charging_station_system.Clock.{set_clock_speed_handler}
use charging_station_system.Reports.Range.{TimeType, day}
use charging_station_system.Reports.Pile.{PileReport, list_report}
use charging_station_system.Reports.Dashboard.{Stats, WaitingOrder, stats, waiting_queue}

-- The strategy in the body of a reschedule, by its text.
pub data StrategyText : Type 0 where
  priority_queue_text : StrategyText
  strategy_text : DispatchStrategyType → StrategyText

-- `normalizeStrategy` of pile.controller.ts
abbrev pub normalize_strategy : StrategyText → DispatchStrategyType
normalize_strategy priority_queue_text = priority
normalize_strategy (strategy_text s) = s

-- What a route answers with, in the body of the response.
pub data Answer (F T : Type 0) : Type 0 where
  account_answer : JwtPayload → Answer F T
  login_made : LoginAnswer T → Answer F T
  status_answer : QueueStatus F → Answer F T
  orders_answer : List (OrderView F) → Answer F T
  canceled_answer : Canceled F → Answer F T
  started_answer : Started → Answer F T
  bill_answer : Detail F → Answer F T
  detail_answer : DetailDto F → Answer F T
  piles_answer : List (ListedPile F) → Answer F T
  pile_queue_answer : List (QueuedRow F) → Answer F T
  pile_answer : Pile F → Answer F T
  fault_answer : FaultReport F → Answer F T
  controlled_answer : Controlled F → Answer F T
  applied_answer : List (Applied F) → Answer F T
  modes_answer : List ChargeMode → Answer F T
  report_answer : List (PileReport F) → Answer F T
  stats_answer : Stats F → Answer F T
  waiting_answer : List (WaitingOrder F) → Answer F T
  speed_answer : F → Answer F T

-- A refusal before the handler, or what the handler returned or threw.
pub data Response (F T : Type 0) : Type 0 where
  response_401 response_403 response_400 : Response F T
  handled : Result (Answer F T) → Response F T

-- `verifies now token` is the token's payload, if its signature is right and it has not expired.
-- `hashes` is `bcrypt.hash`, with the salt of this request. `is_number` is the decorator `@IsNumber()`.
pub record HttpLibrary (F T : Type 0) : Type 0 where
  pub accounts : AccountLibrary T
  pub verifies : ℕ → T → Option JwtPayload
  pub hashes : Codes → Codes
  pub is_number : F → Bool

module _ {F T : Type 0} where
  abbrev pub respond_with :
      {A : Type 0} → (A → Answer F T) → Result A × World F → Response F T × World F
  respond_with f (ok a, w) = (handled (ok (f a)), w)
  respond_with f (err e, w) = (handled (err e), w)

module _ {F T : Type 0} ⦃fl : Float F⦄ (lib : HttpLibrary F T) (env : Env F) where
  abbrev pub register_handler : RegisterDto F → World F → Response F T × World F
  register_handler dto w =
      respond_with account_answer (register lib.accounts (lib.hashes dto.password) dto w)

  abbrev pub login_handler : LoginDto → World F → Response F T × World F
  login_handler dto w = respond_with login_made (login lib.accounts dto w)

  abbrev pub admin_login_handler : LoginDto → World F → Response F T × World F
  admin_login_handler dto w = respond_with login_made (admin_login lib.accounts dto w)

  abbrev pub submit_handler : SubmitChargingRequest F → Option ℕ → World F → Response F T × World F
  submit_handler dto u w = respond_with status_answer (submit_request env dto u w)

  abbrev pub orders_handler : Option ℕ → World F → Response F T × World F
  orders_handler u w = respond_with orders_answer (list_orders u w)

  abbrev pub modify_mode_handler : ℕ → ChargeMode → Option ℕ → World F → Response F T × World F
  modify_mode_handler i mode u w = respond_with status_answer (modify_mode env i mode u w)

  abbrev pub modify_amount_handler : ℕ → F → Option ℕ → World F → Response F T × World F
  modify_amount_handler i amount u w = respond_with status_answer (modify_amount env i amount u w)

  abbrev pub cancel_handler : ℕ → Option Codes → Option ℕ → World F → Response F T × World F
  cancel_handler i reason u w = respond_with canceled_answer (cancel env i reason u w)

  abbrev pub queue_status_handler : ℕ → Option ℕ → World F → Response F T × World F
  queue_status_handler i u w = respond_with status_answer (queue_status env i u w)

  abbrev pub start_handler : ℕ → Option ℕ → World F → Response F T × World F
  start_handler i u w = respond_with started_answer (start env i u w)

  abbrev pub stop_handler : ℕ → Option ℕ → World F → Response F T × World F
  stop_handler i u w = respond_with bill_answer (stop env i u w)

  abbrev pub detail_by_id_handler : ℕ → Option ℕ → World F → Response F T × World F
  detail_by_id_handler i u w = respond_with detail_answer (detail_by_id i u w)

  abbrev pub detail_by_order_handler : ℕ → Option ℕ → World F → Response F T × World F
  detail_by_order_handler i u w = respond_with detail_answer (detail_by_order i u w)

  abbrev pub list_piles_handler : World F → Response F T × World F
  list_piles_handler w = respond_with piles_answer (list_piles env w)

  abbrev pub pile_queue_handler : ℕ → World F → Response F T × World F
  pile_queue_handler i w = respond_with pile_queue_answer (pile_queue env i w)

  abbrev pub power_on_handler : ℕ → World F → Response F T × World F
  power_on_handler i w = respond_with pile_answer (power_on env i w)

  abbrev pub power_off_handler : ℕ → World F → Response F T × World F
  power_off_handler i w = respond_with pile_answer (power_off env i w)

  abbrev pub fault_handler : ℕ → World F → Response F T × World F
  fault_handler i w = respond_with fault_answer (report_fault env i w)

  abbrev pub recover_handler : ℕ → World F → Response F T × World F
  recover_handler i w = respond_with pile_answer (recover env i w)

  abbrev pub reschedule_handler : ℕ → StrategyText → World F → Response F T × World F
  reschedule_handler i s w =
      respond_with applied_answer (trigger_fault_reschedule env i (normalize_strategy s) w)

  abbrev pub control_handler :
      ℕ → ControlAction → Option WorkingState → World F → Response F T × World F
  control_handler i action target w = respond_with controlled_answer (control env i action target w)

  abbrev pub basic_all_handler : World F → Response F T × World F
  basic_all_handler w = respond_with modes_answer (trigger_basic_all env w)

  abbrev pub basic_handler : ChargeMode → World F → Response F T × World F
  basic_handler mode w = respond_with applied_answer (trigger_basic env mode w)

  abbrev pub dispatch_fault_handler : ℕ → DispatchStrategyType → World F → Response F T × World F
  dispatch_fault_handler i s w = respond_with applied_answer (trigger_fault_reschedule env i s w)

  abbrev pub single_handler : ℕ → ChargeMode → World F → Response F T × World F
  single_handler spots mode w =
      respond_with applied_answer (trigger_single_optimization env spots mode w)

  abbrev pub batch_handler : ℕ → World F → Response F T × World F
  batch_handler spots w = respond_with applied_answer (trigger_batch_optimization env spots w)

  abbrev pub stats_handler : World F → Response F T × World F
  stats_handler w = respond_with stats_answer (stats w)

  abbrev pub waiting_queue_handler : World F → Response F T × World F
  waiting_queue_handler w = respond_with waiting_answer (waiting_queue w)

  abbrev pub report_handler : Option TimeType → World F → Response F T × World F
  report_handler none w = respond_with report_answer (list_report env day w)
  report_handler (some t) w = respond_with report_answer (list_report env t w)

  abbrev pub clock_speed_handler : World F → Response F T × World F
  clock_speed_handler w = (handled (ok (speed_answer w.clock.clock_speed)), w)

  -- On `Number(speed)`.
  abbrev pub changed_speed_handler : F → World F → Response F T × World F
  changed_speed_handler speed w =
      let (now_speed, clock) = set_clock_speed_handler env.real_ms speed w.clock in
      (handled (ok (speed_answer now_speed)), record w { clock = clock })
