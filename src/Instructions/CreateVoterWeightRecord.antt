-- ===== src/Instructions/CreateVoterWeightRecord.antt =====
-- programs/entros-voter-weight/src/instructions/create_voter_weight_record.rs.
pub mod Effect
use entros_governance_plugin.Base.{none, some, ◌==◌}
use entros_governance_plugin.Error.{
  Result, ok, ◌>>=◌, ◌>>◌, require, entros, governing_token_owner_signer_mismatch,
}
use entros_governance_plugin.Solana.{Pubkey, Accounts, Bank, AccountMeta}
use entros_governance_plugin.Addin.{VoterWeightRecord}
use entros_governance_plugin.State.Registrar.{Registrar}
use entros_governance_plugin.Runtime.{Runtime}
use entros_governance_plugin.Governance.{voter_weight_record, voter_weight_record_space}
use entros_governance_plugin.Instructions.Attributes.{
  signer, mutable, system_program, registrar_seeds, voter_weight_record_seeds, derived, load, init,
  exit,
}

pub record CreateVoterWeightRecord : Type 0 where
  pub registrar : AccountMeta
  pub voter_weight_record : AccountMeta
  pub governing_token_owner_signer : AccountMeta
  pub payer : AccountMeta
  pub system_program : AccountMeta

module _ (rt : Runtime) where
  unfoldable pub try_accounts :
      CreateVoterWeightRecord
      → Pubkey
      → Accounts
      → Result (Registrar × VoterWeightRecord × Accounts)
  try_accounts ctx governing_token_owner accounts = do
    registrar ← load rt rt.registrar accounts ctx.registrar
    signer ctx.governing_token_owner_signer
    signer ctx.payer
    system_program accounts ctx.system_program
    (zeroed, created) ←
        init rt (voter_weight_record rt) ctx.voter_weight_record
          (voter_weight_record_seeds registrar.realm registrar.governing_token_mint
            governing_token_owner)
          ctx.payer voter_weight_record_space accounts
    derived rt ctx.registrar (registrar_seeds registrar.realm registrar.governing_token_mint)
    mutable ctx.payer
    ok (registrar, zeroed, created)

  unfoldable pub create_voter_weight_record :
      CreateVoterWeightRecord → Registrar → VoterWeightRecord → Pubkey → Result VoterWeightRecord
  create_voter_weight_record ctx registrar zeroed governing_token_owner = do
    require (ctx.governing_token_owner_signer.key == governing_token_owner)
        (entros governing_token_owner_signer_mismatch)
    ok (record zeroed {
      account_discriminator = rt.voter_weight_record_discriminator;
      realm = registrar.realm;
      governing_token_mint = registrar.governing_token_mint;
      governing_token_owner = governing_token_owner;
      voter_weight = 0;
      voter_weight_expiry = some 0;
      weight_action = none;
      weight_action_target = none;
    })

  unfoldable pub execute : CreateVoterWeightRecord → Pubkey → Bank → Result Bank
  execute ctx governing_token_owner bank = do
    (registrar, zeroed, created) ← try_accounts ctx governing_token_owner bank.accounts
    value ← create_voter_weight_record ctx registrar zeroed governing_token_owner
    accounts ← exit (voter_weight_record rt) ctx.voter_weight_record value created
    ok (record bank { accounts = accounts })
