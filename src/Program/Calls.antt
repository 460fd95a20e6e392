-- ===== src/Program/Calls.antt =====
-- An instruction whose accounts are of the kinds that it takes them for.
use entros_governance_plugin.Base.{◌^◌, ◌<◌, IsI64}
use entros_governance_plugin.Solana.{Pubkey, IsPubkey, Accounts, Bank}
use entros_governance_plugin.Addin
use entros_governance_plugin.State.Registrar.{Registrar}
use entros_governance_plugin.Runtime.{Runtime}
use entros_governance_plugin.Instructions.CreateRegistrar.Effect.{IsTyped}
use entros_governance_plugin.Instructions.UpdateVoterWeightRecord.{UpdateVoterWeightRecord}
use entros_governance_plugin.Instructions.UpdateVoterWeightRecord.Eligibility.{IsMachine}
use entros_governance_plugin.Program.{
  Instruction, create_registrar, update_registrar, create_voter_weight_record,
  update_voter_weight_record, update_voter_weight_record_for_action, close_registrar,
  close_voter_weight_record, create_max_voter_weight_record, update_max_voter_weight_record,
}
use entros_governance_plugin.Program.Slots.{IsRegistrarAt, IsRecordAt, IsMaxAt}

module _ (rt : Runtime) (accounts : Accounts) where
  abbrev pub RegistrarAt : Pubkey → Type 0
  RegistrarAt key = (r : Registrar) × IsRegistrarAt rt accounts key r

  abbrev pub RecordAt : Pubkey → Type 0
  RecordAt key = (v : Addin.VoterWeightRecord) × IsRecordAt rt accounts key v

  abbrev pub MaxAt : Pubkey → Type 0
  MaxAt key = (m : Addin.MaxVoterWeightRecord) × IsMaxAt rt accounts key m

-- An update is of a registrar and a voter's record, on a machine that keeps its types.
pub record IsUpdate (rt : Runtime) (ctx : UpdateVoterWeightRecord) (bank : Bank) : Type 0 where
  pub registrar : Registrar
  pub at_registrar : IsRegistrarAt rt bank.accounts ctx.registrar.key registrar
  pub at_record : RecordAt rt bank.accounts ctx.voter_weight_record.key
  pub machine : IsMachine registrar bank

-- The accounts of an instruction are of the kinds that it takes them for, and its numbers are within
-- their Rust types.
abbrev pub IsCall : Runtime → Instruction → Bank → Type 0
IsCall rt (create_registrar ctx min_trust_score max_verification_age) bank =
    IsTyped ctx min_trust_score max_verification_age
IsCall rt (update_registrar ctx min_trust_score max_verification_age) bank =
    RegistrarAt rt bank.accounts ctx.registrar.key
    × (min_trust_score < 2 ^ 16)
    × IsI64 max_verification_age
IsCall rt (create_voter_weight_record ctx governing_token_owner) bank =
    RegistrarAt rt bank.accounts ctx.registrar.key × IsPubkey governing_token_owner
IsCall rt (update_voter_weight_record ctx) bank = IsUpdate rt ctx bank
IsCall rt (update_voter_weight_record_for_action ctx weight_action weight_action_target) bank =
    IsUpdate rt ctx bank × IsPubkey weight_action_target
IsCall rt (close_registrar ctx) bank = RegistrarAt rt bank.accounts ctx.registrar.key
IsCall rt (close_voter_weight_record ctx) bank =
    RecordAt rt bank.accounts ctx.voter_weight_record.key
IsCall rt (create_max_voter_weight_record ctx) bank = RegistrarAt rt bank.accounts ctx.registrar.key
IsCall rt (update_max_voter_weight_record ctx max_voter_weight) bank =
    RegistrarAt rt bank.accounts ctx.registrar.key
    × MaxAt rt bank.accounts ctx.max_voter_weight_record.key
    × (max_voter_weight < 2 ^ 64)
