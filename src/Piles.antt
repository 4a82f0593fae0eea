-- ===== src/Piles.antt =====
-- The pile service, apps/server/src/modules/pile/pile.service.ts.
pub mod Power
pub mod Fault
pub mod Control
pub mod Views
