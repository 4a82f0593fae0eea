-- ===== src/Station/Effects.antt =====
-- The payloads that the services write to Redis and broadcast, and the environment of a call.
use charging_station_system.Prelude.{ℕ, Bool, Option, List}
use charging_station_system.Schema.{
  Codes, ChargeMode, OrderStatus, PhysicalState, WorkingState, DispatchStrategyType, Db,
}
use charging_station_system.Clock.{ClockState}

-- An entry of `waiting:<mode>`, made by `refreshMode` of queue-cache.service.ts.
pub record WaitingEntry (F : Type 0) : Type 0 where
  pub rank : ℕ
  pub order_id : ℕ
  pub car_id : Codes
  pub charge_mode : ChargeMode
  pub target_kwh : F
  pub user_account : Option Codes
  pub user_id : ℕ
  pub check_in_time : ℕ
  pub queue_no : Codes

-- An entry of the queue in `pile:<id>`.
pub record PileQueueEntry (F : Type 0) : Type 0 where
  pub order_id : ℕ
  pub queue_no : Codes
  pub status : OrderStatus
  pub user_id : ℕ
  pub username : Option Codes
  pub requested_amount : F
  pub progress : F
  pub entered_at : Option ℕ

-- `pile:<id>`, made by `refreshPile`; without the display name, and with `currentPower` a number.
pub record PileEntry (F : Type 0) : Type 0 where
  pub id : ℕ
  pub pile_type : ChargeMode
  pub physical_state : PhysicalState
  pub working_state : WorkingState
  pub current_power : F
  pub target_car : Option Codes
  pub progress : F
  pub queue : List (PileQueueEntry F)

-- An entry of `applied` in dispatch.service.ts.
pub record Applied (F : Type 0) : Type 0 where
  pub order_id : ℕ
  pub queue_no : Codes
  pub pile_id : ℕ
  pub projected_finish_time : F
  pub auto_started : Bool

-- An order that a fault affects, in pile.service.ts.
pub record AffectedOrder (F : Type 0) : Type 0 where
  pub order_id : ℕ
  pub queue_no : Codes
  pub user_id : ℕ
  pub username : Option Codes
  pub requested_amount : F
  pub status : OrderStatus

pub data Strategy : Type 0 where
  basic single_optimization batch_optimization recovery_time_order : Strategy
  on_fault : DispatchStrategyType → Strategy

-- Requests to Redis (`cache_…`) and broadcasts to the clients, in the order in which they are made.
pub data Effect (F : Type 0) : Type 0 where
  cache_waiting : ChargeMode → List (WaitingEntry F) → Effect F
  cache_pile : ℕ → PileEntry F → Effect F
  waiting_queue_changed : List (WaitingEntry F) → Effect F
  pile_metrics_update : PileEntry F → Effect F
  dispatch_result : Strategy → Option ChargeMode → List (Applied F) → Effect F
  rescheduled : ℕ → DispatchStrategyType → ℕ → ℕ → Effect F
  fault_event : ℕ → ChargeMode → Option ℕ → Option ℕ → List (AffectedOrder F) → Effect F
  charging_complete : ℕ → ℕ → Effect F

-- The database, the requests that were made, and the variables of the module clock.ts.
pub record World (F : Type 0) : Type 0 where
  pub db : Db F
  pub effects : List (Effect F)
  pub clock : ClockState F

-- An order and a pile as they are sent to the scheduler.
pub record SchedulerOrder (F : Type 0) : Type 0 where
  pub order_id : ℕ
  pub queue_no : Codes
  pub charge_mode : ChargeMode
  pub requested_amount : F
  pub status : OrderStatus

pub record SchedulerPile (F : Type 0) : Type 0 where
  pub pile_id : ℕ
  pub pile_type : ChargeMode
  pub power : F
  pub working_state : WorkingState
  pub queued_orders : List (SchedulerOrder F)

-- An answer names each field in one of two spellings, or not at all.
pub record SchedulerAssignment (F : Type 0) : Type 0 where
  pub order_id : Option ℕ
  pub order_id_camel : Option ℕ
  pub queue_no : Option Codes
  pub queue_no_camel : Option Codes
  pub pile_id : Option ℕ
  pub pile_id_camel : Option ℕ
  pub projected_finish_time : Option F
  pub projected_finish_time_camel : Option F

pub data Request (F : Type 0) : Type 0 where
  basic_request : ChargeMode → List (SchedulerOrder F) → List (SchedulerPile F) → Request F
  fault_request :
      DispatchStrategyType → ℕ → List (SchedulerOrder F) → List (SchedulerPile F) → Request F
  single_request : ℕ → ChargeMode → List (SchedulerOrder F) → List (SchedulerPile F) → Request F
  batch_request : ℕ → List (SchedulerOrder F) → List (SchedulerPile F) → Request F
  recovery_request : ℕ → List (SchedulerOrder F) → List (SchedulerPile F) → Request F

pub data LockKey : Type 0 where
  basic_lock : LockKey
  fault_lock recovery_lock wake_lock : ℕ → LockKey

-- One call runs at one reading of each clock. `schedule` is the scheduler service: `none` if the
-- request fails, and the list of `assignments`, if there is one, else. `lock` is the answer of Redis
-- to a request for a lock.
pub record Env (F : Type 0) : Type 0 where
  pub virtual_ms : F
  pub real_ms : ℕ
  pub zone : ℕ
  pub charging_queue_len : Option ℕ
  pub waiting_area_size : Option ℕ
  pub schedule : Request F → Option (Option (List (SchedulerAssignment F)))
  pub lock : LockKey → Bool
