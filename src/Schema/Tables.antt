-- ===== src/Schema/Tables.antt =====
-- A record for each table, and the database with all of them.
use charging_station_system.Prelude.{ℕ, Bool, Option, List}
use charging_station_system.Schema.Enums.{
  ChargeMode, OrderStatus, PhysicalState, WorkingState, UserRole, SessionStatus, BillingPeriod,
}

-- A text, as character codes.
abbrev pub Codes : Type 0
Codes = List ℕ

pub record User (F : Type 0) : Type 0 where
  pub id : ℕ
  pub username : Codes
  pub password_hash : Codes
  pub role : UserRole
  pub battery_capacity : F

pub record Pile (F : Type 0) : Type 0 where
  pub id : ℕ
  pub pile_type : ChargeMode
  pub power : F
  pub physical_state : PhysicalState
  pub working_state : WorkingState
  pub total_charge_count : ℕ
  pub total_charge_duration : F
  pub total_charge_amount : F

pub record Order (F : Type 0) : Type 0 where
  pub id : ℕ
  pub user_id : ℕ
  pub charge_mode : ChargeMode
  pub requested_amount : F
  pub queue_no : Codes
  pub status : OrderStatus
  pub assigned_pile_id : Option ℕ
  pub pile_queue_entered_at : Option ℕ
  pub submit_time : ℕ
  pub started_at : Option ℕ
  pub finished_at : Option ℕ
  pub created_at : ℕ

pub record Session (F : Type 0) : Type 0 where
  pub id : ℕ
  pub order_id : ℕ
  pub pile_id : ℕ
  pub start_time : ℕ
  pub stop_time : Option ℕ
  pub actual_amount : Option F
  pub stop_reason : Option Codes
  pub session_status : SessionStatus

pub record Detail (F : Type 0) : Type 0 where
  pub id : ℕ
  pub order_id : ℕ
  pub session_id : ℕ
  pub generated_at : ℕ
  pub actual_amount : F
  pub duration : F
  pub charge_fee : F
  pub service_fee : F
  pub total_fee : F
  pub billing_rule_version : ℕ

pub record BillingRule (F : Type 0) : Type 0 where
  pub period : BillingPeriod
  pub start_minute : ℕ
  pub end_minute : ℕ
  pub price : F
  pub service_fee_rate : F
  pub version : ℕ
  pub active : Bool

-- `next_id` is the supply of fresh keys, `cuid()` in the schema.
pub record Db (F : Type 0) : Type 0 where
  pub users : List (User F)
  pub piles : List (Pile F)
  pub orders : List (Order F)
  pub sessions : List (Session F)
  pub details : List (Detail F)
  pub rules : List (BillingRule F)
  pub next_id : ℕ
