-- ===== src/Instructions/UpdateRegistrar.antt =====
-- programs/entros-voter-weight/src/instructions/update_registrar.rs.
pub mod Effect
use entros_governance_plugin.Base.{ℕ, ℤ, pos, ltb_ℤ}
use entros_governance_plugin.Error.{
  Result, ok, ◌>>=◌, ◌>>◌, require, entros, invalid_max_verification_age,
}
use entros_governance_plugin.Solana.{Accounts, Bank, AccountMeta}
use entros_governance_plugin.State.Registrar.{Registrar}
use entros_governance_plugin.Runtime.{Runtime}
use entros_governance_plugin.Instructions.Attributes.{
  signer, mutable, constraint, registrar_seeds, derived, load, require_realm_authority, exit,
}

pub record UpdateRegistrar : Type 0 where
  pub registrar : AccountMeta
  pub realm : AccountMeta
  pub realm_authority : AccountMeta

module _ (rt : Runtime) where
  unfoldable pub try_accounts : UpdateRegistrar → Accounts → Result Registrar
  try_accounts ctx accounts = do
    registrar ← load rt rt.registrar accounts ctx.registrar
    signer ctx.realm_authority
    derived rt ctx.registrar (registrar_seeds registrar.realm registrar.governing_token_mint)
    mutable ctx.registrar
    constraint ctx.realm.key registrar.realm
    ok registrar

  unfoldable pub update_registrar :
      UpdateRegistrar → Accounts → Registrar → ℕ → ℤ → Result Registrar
  update_registrar ctx accounts registrar min_trust_score max_verification_age = do
    require (ltb_ℤ (pos 0) max_verification_age) (entros invalid_max_verification_age)
    require_realm_authority rt registrar.governance_program_id ctx.realm
        registrar.governing_token_mint ctx.realm_authority accounts
    ok (record registrar {
      min_trust_score = min_trust_score;
      max_verification_age = max_verification_age;
    })

  unfoldable pub execute : UpdateRegistrar → ℕ → ℤ → Bank → Result Bank
  execute ctx min_trust_score max_verification_age bank = do
    registrar ← try_accounts ctx bank.accounts
    updated ← update_registrar ctx bank.accounts registrar min_trust_score max_verification_age
    accounts ← exit rt.registrar ctx.registrar updated bank.accounts
    ok (record bank { accounts = accounts })
