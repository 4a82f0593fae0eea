-- ===== src/Reports.antt =====
-- The reports on bills and the operator's dashboard, apps/server/src/modules/report and
-- apps/server/src/modules/admin.
pub mod Range
pub mod Pile
pub mod Dashboard
