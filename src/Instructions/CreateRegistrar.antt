-- ===== src/Instructions/CreateRegistrar.antt =====
-- programs/entros-voter-weight/src/instructions/create_registrar.rs.
pub mod Effect
use entros_governance_plugin.Base.{ℕ, ℤ, pos, ltb_ℤ, ◌==◌}
use entros_governance_plugin.Error.{
  Result, ok, ◌>>=◌, ◌>>◌, require, entros, anchor, constraint_executable, constraint_owner,
  invalid_max_verification_age,
}
use entros_governance_plugin.Solana.{Accounts, Bank, AccountMeta}
use entros_governance_plugin.State.Registrar.{Registrar, len}
use entros_governance_plugin.Runtime.{Runtime}
use entros_governance_plugin.Instructions.Attributes.{
  signer, mutable, system_program, registrar_seeds, init, require_realm_authority, exit,
}

pub record CreateRegistrar : Type 0 where
  pub registrar : AccountMeta
  pub governance_program_id : AccountMeta
  pub realm : AccountMeta
  pub governing_token_mint : AccountMeta
  pub realm_authority : AccountMeta
  pub payer : AccountMeta
  pub system_program : AccountMeta

module _ (rt : Runtime) where
  unfoldable pub try_accounts : CreateRegistrar → Accounts → Result (Registrar × Accounts)
  try_accounts ctx accounts = do
    signer ctx.realm_authority
    signer ctx.payer
    system_program accounts ctx.system_program
    (registrar, created) ←
        init rt rt.registrar ctx.registrar
          (registrar_seeds ctx.realm.key ctx.governing_token_mint.key) ctx.payer len accounts
    require (created ctx.governance_program_id.key).executable (anchor constraint_executable)
    require ((created ctx.realm.key).owner == ctx.governance_program_id.key)
        (anchor constraint_owner)
    mutable ctx.payer
    ok (registrar, created)

  unfoldable pub create_registrar :
      CreateRegistrar → Accounts → Registrar → ℕ → ℤ → Result Registrar
  create_registrar ctx accounts registrar min_trust_score max_verification_age = do
    require (ltb_ℤ (pos 0) max_verification_age) (entros invalid_max_verification_age)
    require_realm_authority rt ctx.governance_program_id.key ctx.realm ctx.governing_token_mint.key
        ctx.realm_authority accounts
    ok (record registrar {
      governance_program_id = ctx.governance_program_id.key;
      realm = ctx.realm.key;
      governing_token_mint = ctx.governing_token_mint.key;
      min_trust_score = min_trust_score;
      max_verification_age = max_verification_age;
    })

  unfoldable pub execute : CreateRegistrar → ℕ → ℤ → Bank → Result Bank
  execute ctx min_trust_score max_verification_age bank = do
    (zeroed, created) ← try_accounts ctx bank.accounts
    registrar ← create_registrar ctx created zeroed min_trust_score max_verification_age
    accounts ← exit rt.registrar ctx.registrar registrar created
    ok (record bank { accounts = accounts })
