-- ===== src/Examples.antt =====
-- Runs of the code at concrete inputs, where the theorems apply.
mod Breakers
mod Retries
mod Machines
mod Rows
mod Queries
mod Actors
mod Bindings
