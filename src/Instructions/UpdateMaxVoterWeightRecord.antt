-- ===== src/Instructions/UpdateMaxVoterWeightRecord.antt =====
-- programs/entros-voter-weight/src/instructions/update_max_voter_weight_record.rs.
pub mod Effect
use entros_governance_plugin.Base.{ℕ, none, ltb}
use entros_governance_plugin.Error.{
  Result, ok, ◌>>=◌, ◌>>◌, require, entros, invalid_max_voter_weight,
}
use entros_governance_plugin.Solana.{Accounts, Bank, AccountMeta}
use entros_governance_plugin.Addin.{MaxVoterWeightRecord}
use entros_governance_plugin.State.Registrar.{Registrar}
use entros_governance_plugin.Runtime.{Runtime}
use entros_governance_plugin.Governance.{max_voter_weight_record}
use entros_governance_plugin.Instructions.Attributes.{
  signer, mutable, constraint, registrar_seeds, derived, load, require_realm_authority, exit,
}

pub record UpdateMaxVoterWeightRecord : Type 0 where
  pub registrar : AccountMeta
  pub max_voter_weight_record : AccountMeta
  pub realm : AccountMeta
  pub realm_authority : AccountMeta

module _ (rt : Runtime) where
  unfoldable pub try_accounts :
      UpdateMaxVoterWeightRecord → Accounts → Result (Registrar × MaxVoterWeightRecord)
  try_accounts ctx accounts = do
    registrar ← load rt rt.registrar accounts ctx.registrar
    value ← load rt (max_voter_weight_record rt) accounts ctx.max_voter_weight_record
    signer ctx.realm_authority
    derived rt ctx.registrar (registrar_seeds registrar.realm registrar.governing_token_mint)
    mutable ctx.max_voter_weight_record
    constraint value.realm registrar.realm
    constraint value.governing_token_mint registrar.governing_token_mint
    constraint ctx.realm.key registrar.realm
    ok (registrar, value)

  unfoldable pub update_max_voter_weight_record :
      UpdateMaxVoterWeightRecord
      → Accounts
      → Registrar
      → MaxVoterWeightRecord
      → ℕ
      → Result MaxVoterWeightRecord
  update_max_voter_weight_record ctx accounts registrar value max_voter_weight = do
    require (ltb 0 max_voter_weight) (entros invalid_max_voter_weight)
    require_realm_authority rt registrar.governance_program_id ctx.realm
        registrar.governing_token_mint ctx.realm_authority accounts
    ok (record value { max_voter_weight = max_voter_weight; max_voter_weight_expiry = none })

  unfoldable pub execute : UpdateMaxVoterWeightRecord → ℕ → Bank → Result Bank
  execute ctx max_voter_weight bank = do
    (registrar, value) ← try_accounts ctx bank.accounts
    updated ← update_max_voter_weight_record ctx bank.accounts registrar value max_voter_weight
    accounts ← exit (max_voter_weight_record rt) ctx.max_voter_weight_record updated bank.accounts
    ok (record bank { accounts = accounts })
