-- ===== src/Addin.antt =====
-- The types of spl-governance-addin-api that the program wraps, with the fields that
-- programs/entros-voter-weight/src/instructions/update_voter_weight_record.rs builds in its tests
-- and programs/entros-voter-weight/src/governance.rs lists in `get_space`.
use entros_governance_plugin.Base.{ℕ, Option, Bytes}
use entros_governance_plugin.Solana.{Pubkey}

-- `spl_governance_addin_api::voter_weight::VoterWeightAction`.
pub data VoterWeightAction : Type 0 where
  cast_vote comment_proposal create_governance create_proposal sign_off_proposal : VoterWeightAction

-- `spl_governance_addin_api::voter_weight::VoterWeightRecord`.
pub record VoterWeightRecord : Type 0 where
  pub account_discriminator : Bytes
  pub realm : Pubkey
  pub governing_token_mint : Pubkey
  pub governing_token_owner : Pubkey
  pub voter_weight : ℕ
  pub voter_weight_expiry : Option ℕ
  pub weight_action : Option VoterWeightAction
  pub weight_action_target : Option Pubkey
  pub reserved : Bytes

-- `spl_governance_addin_api::max_voter_weight::MaxVoterWeightRecord`.
pub record MaxVoterWeightRecord : Type 0 where
  pub account_discriminator : Bytes
  pub realm : Pubkey
  pub governing_token_mint : Pubkey
  pub max_voter_weight : ℕ
  pub max_voter_weight_expiry : Option ℕ
  pub reserved : Bytes
