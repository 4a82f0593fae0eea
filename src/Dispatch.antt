-- ===== src/Dispatch.antt =====
-- The dispatch service, apps/server/src/modules/dispatch/dispatch.service.ts.
pub mod Strategy
pub mod Queues
pub mod Assign
pub mod Complete
pub mod Trigger
