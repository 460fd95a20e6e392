-- ===== src/Program.antt =====
-- programs/entros-voter-weight/src/lib.rs: the instructions of the program and their dispatch.
pub mod Slots
pub mod Calls
pub mod Kinds
pub mod Reads
pub mod Reachable
pub mod Sound
pub mod Authority
pub mod Unique
use entros_governance_plugin.Base.{ℕ, ℤ}
use entros_governance_plugin.Error.{Result}
use entros_governance_plugin.Solana.{Pubkey, Bank}
use entros_governance_plugin.State.Action.{VoterWeightAction}
use entros_governance_plugin.Runtime.{Runtime}
use entros_governance_plugin.Instructions.CreateRegistrar
use entros_governance_plugin.Instructions.UpdateRegistrar
use entros_governance_plugin.Instructions.CloseRegistrar
use entros_governance_plugin.Instructions.CreateVoterWeightRecord
use entros_governance_plugin.Instructions.UpdateVoterWeightRecord
use entros_governance_plugin.Instructions.CloseVoterWeightRecord
use entros_governance_plugin.Instructions.CreateMaxVoterWeightRecord
use entros_governance_plugin.Instructions.UpdateMaxVoterWeightRecord

pub data Instruction : Type 0 where
  create_registrar : CreateRegistrar.CreateRegistrar → ℕ → ℤ → Instruction
  update_registrar : UpdateRegistrar.UpdateRegistrar → ℕ → ℤ → Instruction
  create_voter_weight_record :
      CreateVoterWeightRecord.CreateVoterWeightRecord → Pubkey → Instruction
  update_voter_weight_record : UpdateVoterWeightRecord.UpdateVoterWeightRecord → Instruction
  update_voter_weight_record_for_action :
      UpdateVoterWeightRecord.UpdateVoterWeightRecord → VoterWeightAction → Pubkey → Instruction
  close_registrar : CloseRegistrar.CloseRegistrar → Instruction
  close_voter_weight_record : CloseVoterWeightRecord.CloseVoterWeightRecord → Instruction
  create_max_voter_weight_record :
      CreateMaxVoterWeightRecord.CreateMaxVoterWeightRecord → Instruction
  update_max_voter_weight_record :
      UpdateMaxVoterWeightRecord.UpdateMaxVoterWeightRecord → ℕ → Instruction

module _ (rt : Runtime) where
  unfoldable pub process : Instruction → Bank → Result Bank
  process (create_registrar ctx min_trust_score max_verification_age) =
      CreateRegistrar.execute rt ctx min_trust_score max_verification_age
  process (update_registrar ctx min_trust_score max_verification_age) =
      UpdateRegistrar.execute rt ctx min_trust_score max_verification_age
  process (create_voter_weight_record ctx governing_token_owner) =
      CreateVoterWeightRecord.execute rt ctx governing_token_owner
  process (update_voter_weight_record ctx) = UpdateVoterWeightRecord.execute rt ctx
  process (update_voter_weight_record_for_action ctx weight_action weight_action_target) =
      UpdateVoterWeightRecord.execute_for_action rt ctx weight_action weight_action_target
  process (close_registrar ctx) = CloseRegistrar.execute rt ctx
  process (close_voter_weight_record ctx) = CloseVoterWeightRecord.execute rt ctx
  process (create_max_voter_weight_record ctx) = CreateMaxVoterWeightRecord.execute rt ctx
  process (update_max_voter_weight_record ctx max_voter_weight) =
      UpdateMaxVoterWeightRecord.execute rt ctx max_voter_weight
