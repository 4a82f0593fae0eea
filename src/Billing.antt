-- ===== src/Billing.antt =====
-- The billing service, apps/server/src/modules/billing/billing.service.ts.
pub mod Tariff
pub mod Fee
pub mod Amounts
pub mod Close
