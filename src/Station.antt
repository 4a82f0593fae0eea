-- ===== src/Station.antt =====
-- What an operation of the server works on: the database, the requests that it sends to the cache
-- and to the clients, the readings and settings that it is given, and how it fails.
mod Effects
mod Actions
pub mod Rules
pub use Effects.*
pub use Actions.*
