-- ===== src/Client.antt =====
-- The web client, apps/client/src.
pub mod Router
