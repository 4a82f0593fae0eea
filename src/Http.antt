-- ===== src/Http.antt =====
-- The HTTP interface of the server: the controllers of apps/server/src/modules with the guards that
-- main.ts installs for all of them.
pub mod Guards
pub mod Routes
pub mod Access
pub mod Owners
pub mod Sequences
pub mod Anonymous
