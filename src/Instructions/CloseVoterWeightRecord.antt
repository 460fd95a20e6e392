-- ===== src/Instructions/CloseVoterWeightRecord.antt =====
-- programs/entros-voter-weight/src/instructions/close_voter_weight_record.rs.
pub mod Effect
use entros_governance_plugin.Base.{◌==◌}
use entros_governance_plugin.Error.{
  Result, ok, ◌>>=◌, ◌>>◌, require, entros, voter_weight_record_realm_mismatch,
  voter_weight_record_mint_mismatch, voter_weight_record_owner_mismatch,
}
use entros_governance_plugin.Solana.{Accounts, Bank, AccountMeta}
use entros_governance_plugin.Addin.{VoterWeightRecord}
use entros_governance_plugin.Runtime.{Runtime}
use entros_governance_plugin.Governance.{voter_weight_record}
use entros_governance_plugin.Instructions.Attributes.{
  signer, mutable, closes_into, registrar_seeds, derived, load,
}

pub record CloseVoterWeightRecord : Type 0 where
  pub registrar : AccountMeta
  pub voter_weight_record : AccountMeta
  pub voter_authority : AccountMeta
  pub sol_destination : AccountMeta

module _ (rt : Runtime) where
  unfoldable pub try_accounts : CloseVoterWeightRecord → Accounts → Result VoterWeightRecord
  try_accounts ctx accounts = do
    registrar ← load rt rt.registrar accounts ctx.registrar
    value ← load rt (voter_weight_record rt) accounts ctx.voter_weight_record
    signer ctx.voter_authority
    derived rt ctx.registrar (registrar_seeds registrar.realm registrar.governing_token_mint)
    mutable ctx.voter_weight_record
    require (value.realm == registrar.realm) (entros voter_weight_record_realm_mismatch)
    require (value.governing_token_mint == registrar.governing_token_mint)
        (entros voter_weight_record_mint_mismatch)
    closes_into ctx.voter_weight_record ctx.sol_destination
    mutable ctx.sol_destination
    ok value

-- The handler proper.
unfoldable pub close_voter_weight_record :
    CloseVoterWeightRecord → VoterWeightRecord → Result (Unit {0})
close_voter_weight_record ctx value =
    require (value.governing_token_owner == ctx.voter_authority.key)
      (entros voter_weight_record_owner_mismatch)

unfoldable pub execute : Runtime → CloseVoterWeightRecord → Bank → Result Bank
execute rt ctx bank = do
  value ← try_accounts rt ctx bank.accounts
  close_voter_weight_record ctx value
  ok (record bank {
    accounts = rt.close_account ctx.voter_weight_record.key ctx.sol_destination.key bank.accounts;
  })
