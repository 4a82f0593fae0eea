-- ===== src/Lifecycle.antt =====
-- The life of an order, and the invariant of the tables on which it rests.
pub mod Statuses
pub mod Valid
pub mod Writes
pub mod Closing
pub mod Dispatching
pub mod Moves
pub mod Completing
pub mod Waking
pub mod Triggers
pub mod Requests
pub mod Charges
pub mod Faults
pub mod Billed
pub mod Calls
