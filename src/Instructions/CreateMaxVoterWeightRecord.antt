-- ===== src/Instructions/CreateMaxVoterWeightRecord.antt =====
-- programs/entros-voter-weight/src/instructions/create_max_voter_weight_record.rs.
pub mod Effect
use entros_governance_plugin.Base.{some}
use entros_governance_plugin.Error.{Result, ok, ◌>>=◌, ◌>>◌}
use entros_governance_plugin.Solana.{Accounts, Bank, AccountMeta}
use entros_governance_plugin.Addin.{MaxVoterWeightRecord}
use entros_governance_plugin.State.Registrar.{Registrar}
use entros_governance_plugin.Runtime.{Runtime}
use entros_governance_plugin.Governance.{max_voter_weight_record, max_voter_weight_record_space}
use entros_governance_plugin.Instructions.Attributes.{
  signer, mutable, constraint, system_program, registrar_seeds, max_voter_weight_record_seeds,
  derived, load, init, require_realm_authority, exit,
}

pub record CreateMaxVoterWeightRecord : Type 0 where
  pub registrar : AccountMeta
  pub max_voter_weight_record : AccountMeta
  pub realm : AccountMeta
  pub realm_authority : AccountMeta
  pub payer : AccountMeta
  pub system_program : AccountMeta

module _ (rt : Runtime) where
  unfoldable pub try_accounts :
      CreateMaxVoterWeightRecord → Accounts → Result (Registrar × MaxVoterWeightRecord × Accounts)
  try_accounts ctx accounts = do
    registrar ← load rt rt.registrar accounts ctx.registrar
    signer ctx.realm_authority
    signer ctx.payer
    system_program accounts ctx.system_program
    (zeroed, created) ←
        init rt (max_voter_weight_record rt) ctx.max_voter_weight_record
          (max_voter_weight_record_seeds registrar.realm registrar.governing_token_mint) ctx.payer
          max_voter_weight_record_space accounts
    derived rt ctx.registrar (registrar_seeds registrar.realm registrar.governing_token_mint)
    constraint ctx.realm.key registrar.realm
    mutable ctx.payer
    ok (registrar, zeroed, created)

  unfoldable pub create_max_voter_weight_record :
      CreateMaxVoterWeightRecord
      → Accounts
      → Registrar
      → MaxVoterWeightRecord
      → Result MaxVoterWeightRecord
  create_max_voter_weight_record ctx accounts registrar zeroed = do
    require_realm_authority rt registrar.governance_program_id ctx.realm
        registrar.governing_token_mint ctx.realm_authority accounts
    ok (record zeroed {
      account_discriminator = rt.max_voter_weight_record_discriminator;
      realm = registrar.realm;
      governing_token_mint = registrar.governing_token_mint;
      max_voter_weight = 0;
      max_voter_weight_expiry = some 0;
    })

  unfoldable pub execute : CreateMaxVoterWeightRecord → Bank → Result Bank
  execute ctx bank = do
    (registrar, zeroed, created) ← try_accounts ctx bank.accounts
    value ← create_max_voter_weight_record ctx created registrar zeroed
    accounts ← exit (max_voter_weight_record rt) ctx.max_voter_weight_record value created
    ok (record bank { accounts = accounts })
