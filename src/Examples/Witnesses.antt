-- ===== src/Examples/Witnesses.antt =====
-- The theorems applied at concrete inputs.
mod Updates
mod Instructions
mod Accounts
