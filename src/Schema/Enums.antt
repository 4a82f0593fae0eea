-- ===== src/Schema/Enums.antt =====
-- The enumerations of schema.prisma and common/enums.ts, and the equality tests on them.
use charging_station_system.Prelude.{Bool, true, false}

pub data ChargeMode : Type 0 where
  fast slow : ChargeMode

pub data OrderStatus : Type 0 where
  waiting in_pile_queue charging finished canceled aborted : OrderStatus

pub data PhysicalState : Type 0 where
  on off : PhysicalState

pub data WorkingState : Type 0 where
  idle busy fault : WorkingState

pub data UserRole : Type 0 where
  user admin : UserRole

pub data SessionStatus : Type 0 where
  active closed aborted : SessionStatus

pub data BillingPeriod : Type 0 where
  peak flat valley : BillingPeriod

pub data DispatchStrategyType : Type 0 where
  priority time_order : DispatchStrategyType

abbrev pub eq_mode : ChargeMode → ChargeMode → Bool
eq_mode fast fast = true
eq_mode slow slow = true
eq_mode _ _ = false

abbrev pub is_waiting : OrderStatus → Bool
is_waiting OrderStatus.waiting = true
is_waiting _ = false

abbrev pub is_queued : OrderStatus → Bool
is_queued OrderStatus.in_pile_queue = true
is_queued _ = false

abbrev pub is_charging : OrderStatus → Bool
is_charging OrderStatus.charging = true
is_charging _ = false

-- `status: { in: [CHARGING, IN_PILE_QUEUE] }`
abbrev pub at_pile : OrderStatus → Bool
at_pile OrderStatus.charging = true
at_pile OrderStatus.in_pile_queue = true
at_pile _ = false

-- `status: { in: [WAITING, IN_PILE_QUEUE, CHARGING] }`
abbrev pub is_unfinished : OrderStatus → Bool
is_unfinished OrderStatus.waiting = true
is_unfinished OrderStatus.in_pile_queue = true
is_unfinished OrderStatus.charging = true
is_unfinished _ = false

-- `isTerminal` of dispatch.service.ts
abbrev pub is_terminal : OrderStatus → Bool
is_terminal OrderStatus.finished = true
is_terminal OrderStatus.canceled = true
is_terminal OrderStatus.aborted = true
is_terminal _ = false

abbrev pub is_on : PhysicalState → Bool
is_on on = true
is_on off = false

abbrev pub is_idle : WorkingState → Bool
is_idle idle = true
is_idle _ = false

abbrev pub is_busy : WorkingState → Bool
is_busy busy = true
is_busy _ = false

abbrev pub is_fault : WorkingState → Bool
is_fault fault = true
is_fault _ = false

abbrev pub is_active : SessionStatus → Bool
is_active active = true
is_active _ = false
