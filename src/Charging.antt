-- ===== src/Charging.antt =====
-- The charging service, apps/server/src/modules/charging/charging.service.ts.
pub mod Status
pub mod Submit
pub mod Orders
pub mod History
