-- ===== src/Examples.antt =====
-- A small station on which the operations are run, and the theorems at inputs that meet their
-- hypotheses.
mod Station
mod Witnesses
mod Strategies
mod Services
mod Requests
mod Tokens
