-- ===== src/Instructions.antt =====
-- programs/entros-voter-weight/src/instructions: for each instruction its account struct with the
-- checks of its attributes (`try_accounts`), its handler, and both with the write-back (`execute`).
pub mod Attributes
pub mod CreateRegistrar
pub mod UpdateRegistrar
pub mod CloseRegistrar
pub mod CreateVoterWeightRecord
pub mod UpdateVoterWeightRecord
pub mod CloseVoterWeightRecord
pub mod CreateMaxVoterWeightRecord
pub mod UpdateMaxVoterWeightRecord
