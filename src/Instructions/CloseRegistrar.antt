-- ===== src/Instructions/CloseRegistrar.antt =====
-- programs/entros-voter-weight/src/instructions/close_registrar.rs.
pub mod Effect
use entros_governance_plugin.Error.{Result, ok, ◌>>=◌, ◌>>◌}
use entros_governance_plugin.Solana.{Accounts, Bank, AccountMeta}
use entros_governance_plugin.State.Registrar.{Registrar}
use entros_governance_plugin.Runtime.{Runtime}
use entros_governance_plugin.Instructions.Attributes.{
  signer, mutable, constraint, closes_into, registrar_seeds, derived, load, require_realm_authority,
}

pub record CloseRegistrar : Type 0 where
  pub registrar : AccountMeta
  pub realm : AccountMeta
  pub realm_authority : AccountMeta
  pub sol_destination : AccountMeta

module _ (rt : Runtime) where
  unfoldable pub try_accounts : CloseRegistrar → Accounts → Result Registrar
  try_accounts ctx accounts = do
    registrar ← load rt rt.registrar accounts ctx.registrar
    signer ctx.realm_authority
    derived rt ctx.registrar (registrar_seeds registrar.realm registrar.governing_token_mint)
    mutable ctx.registrar
    closes_into ctx.registrar ctx.sol_destination
    constraint ctx.realm.key registrar.realm
    mutable ctx.sol_destination
    ok registrar

  unfoldable pub close_registrar : CloseRegistrar → Accounts → Registrar → Result (Unit {0})
  close_registrar ctx accounts registrar =
      require_realm_authority rt registrar.governance_program_id ctx.realm
        registrar.governing_token_mint ctx.realm_authority accounts

  unfoldable pub execute : CloseRegistrar → Bank → Result Bank
  execute ctx bank = do
    registrar ← try_accounts ctx bank.accounts
    close_registrar ctx bank.accounts registrar
    ok (record bank {
      accounts = rt.close_account ctx.registrar.key ctx.sol_destination.key bank.accounts;
    })
