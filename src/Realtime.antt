-- ===== src/Realtime.antt =====
-- The WebSocket server, apps/server/src/realtime/realtime.service.ts.
pub mod Frame
pub mod Clients
