-- ===== src/Security.antt =====
-- apps/server/src/common/security.ts: hashes of passwords and signed tokens, as texts with separators.
pub mod Parts
pub mod Passwords
pub mod Tokens
