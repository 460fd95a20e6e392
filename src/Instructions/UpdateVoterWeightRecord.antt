-- ===== src/Instructions/UpdateVoterWeightRecord.antt =====
-- programs/entros-voter-weight/src/instructions/update_voter_weight_record.rs: the two updates.
pub mod Identity
pub mod Parse
pub mod Age
pub mod Eligibility
pub mod Verify
pub mod Accepted
pub mod Granted
pub mod Grant
pub mod Exact
use entros_governance_plugin.Base.{
  ℕ, ◌+◌, ◌-◌, ◌^◌, Bool, List, none, some, leb, ◌==◌, not, if◌then◌else◌,
}
use entros_governance_plugin.Error.{
  Result, ok, ◌>>=◌, ◌>>◌, require, entros, voter_weight_record_realm_mismatch,
  voter_weight_record_mint_mismatch, invalid_weight_action_target,
}
use entros_governance_plugin.Solana.{Pubkey, default_pubkey, Accounts, Bank, AccountMeta}
use entros_governance_plugin.Addin.{VoterWeightRecord}
use entros_governance_plugin.State.Registrar.{Registrar}
use entros_governance_plugin.State.Action.{VoterWeightAction, from}
use entros_governance_plugin.Runtime.{Runtime}
use entros_governance_plugin.Governance.{voter_weight_record}
use entros_governance_plugin.Instructions.Attributes.{
  signer, mutable, registrar_seeds, derived, load, exit,
}
use Identity.{verify_voter_identity_and_recency}

-- `VOTER_WEIGHT_EXPIRY_SLOT_WINDOW`.
abbrev pub voter_weight_expiry_slot_window : ℕ
voter_weight_expiry_slot_window = 10

-- `u64::saturating_add`.
unfoldable pub saturating_add : ℕ → ℕ → ℕ
saturating_add a b = if leb (a + b) (2 ^ 64 - 1) then a + b else 2 ^ 64 - 1

pub record UpdateVoterWeightRecord : Type 0 where
  pub registrar : AccountMeta
  pub voter_weight_record : AccountMeta
  pub voter_authority : AccountMeta
  pub remaining_accounts : List AccountMeta

module _ (rt : Runtime) where
  unfoldable pub try_accounts :
      UpdateVoterWeightRecord → Accounts → Result (Registrar × VoterWeightRecord)
  try_accounts ctx accounts = do
    registrar ← load rt rt.registrar accounts ctx.registrar
    value ← load rt (voter_weight_record rt) accounts ctx.voter_weight_record
    signer ctx.voter_authority
    derived rt ctx.registrar (registrar_seeds registrar.realm registrar.governing_token_mint)
    mutable ctx.voter_weight_record
    require (value.realm == registrar.realm) (entros voter_weight_record_realm_mismatch)
    require (value.governing_token_mint == registrar.governing_token_mint)
        (entros voter_weight_record_mint_mismatch)
    ok (registrar, value)

  unfoldable pub update_voter_weight_record :
      UpdateVoterWeightRecord → Registrar → VoterWeightRecord → Bank → Result VoterWeightRecord
  update_voter_weight_record ctx registrar value bank = do
    clock ←
        verify_voter_identity_and_recency rt registrar value ctx.voter_authority.key
          ctx.remaining_accounts bank
    ok (record value {
      voter_weight = 1;
      voter_weight_expiry = some (saturating_add clock.slot voter_weight_expiry_slot_window);
      weight_action = none;
      weight_action_target = none;
    })

  unfoldable pub update_voter_weight_record_for_action :
      UpdateVoterWeightRecord
      → Registrar
      → VoterWeightRecord
      → VoterWeightAction
      → Pubkey
      → Bank
      → Result VoterWeightRecord
  update_voter_weight_record_for_action ctx registrar value weight_action weight_action_target
        bank =
      do
        require (not (weight_action_target == default_pubkey)) (entros invalid_weight_action_target)
        clock ←
            verify_voter_identity_and_recency rt registrar value ctx.voter_authority.key
              ctx.remaining_accounts bank
        ok (record value {
          voter_weight = 1;
          voter_weight_expiry = some clock.slot;
          weight_action = some (from weight_action);
          weight_action_target = some weight_action_target;
        })

  unfoldable pub execute : UpdateVoterWeightRecord → Bank → Result Bank
  execute ctx bank = do
    (registrar, value) ← try_accounts ctx bank.accounts
    updated ← update_voter_weight_record ctx registrar value bank
    accounts ← exit (voter_weight_record rt) ctx.voter_weight_record updated bank.accounts
    ok (record bank { accounts = accounts })

  unfoldable pub execute_for_action :
      UpdateVoterWeightRecord → VoterWeightAction → Pubkey → Bank → Result Bank
  execute_for_action ctx weight_action weight_action_target bank = do
    (registrar, value) ← try_accounts ctx bank.accounts
    updated ←
        update_voter_weight_record_for_action ctx registrar value weight_action weight_action_target
          bank
    accounts ← exit (voter_weight_record rt) ctx.voter_weight_record updated bank.accounts
    ok (record bank { accounts = accounts })
