-- ===== src/Examples.antt =====
-- A concrete chain, and the theorems applied on it.
pub mod Localnet
pub mod Ledger
mod Runs
mod Enrolled
mod Confused
mod Facts
mod Sound
mod Witnesses
