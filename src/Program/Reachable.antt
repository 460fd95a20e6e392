-- ===== src/Program/Reachable.antt =====
-- The calls that can be made, and the banks that they lead to.
use entros_governance_plugin.Base.{◌^◌, ◌<◌, ◌≡◌, ◌≢◌, IsI64}
use entros_governance_plugin.Error.{ok}
use entros_governance_plugin.Solana.{Pubkey, IsPubkey, Bank}
use entros_governance_plugin.Runtime.{Runtime}
use entros_governance_plugin.Runtime.Laws.{SameData}
use entros_governance_plugin.Governance.{id}
use entros_governance_plugin.Instructions.CreateRegistrar.Effect.{IsTyped}
use entros_governance_plugin.Program.{
  Instruction, create_registrar, update_registrar, create_voter_weight_record,
  update_voter_weight_record, update_voter_weight_record_for_action, close_registrar,
  close_voter_weight_record, create_max_voter_weight_record, update_max_voter_weight_record,
  process,
}
use entros_governance_plugin.Base.{AllBytes, pos, ◌≤ℤ◌}
use entros_governance_plugin.Solana.{Clock}
use entros_governance_plugin.Program.Kinds.{IsTagged}

-- What is taken for granted of the machine that runs an update: bytes are below 256, the clock's
-- time is an `i64` that is not before 1970, and its slot a `u64`.
pub record IsHost (bank : Bank) : Type 0 where
  pub bytes : (k : Pubkey) → AllBytes (bank.accounts k).contents
  pub clock_i64 : (clock : Clock) → bank.clock ≡ ok clock → IsI64 clock.unix_timestamp
  pub slot_u64 : (clock : Clock) → bank.clock ≡ ok clock → clock.slot < 2 ^ 64
  pub clock_pos : (clock : Clock) → bank.clock ≡ ok clock → pos 0 ≤ℤ clock.unix_timestamp

-- The numbers of an instruction are within their Rust types, and the addin's record that is to be
-- updated begins with the discriminator of its type, which the wrappers do not check. Nothing else
-- is asked of the accounts that an instruction names.
abbrev pub IsPermitted : Runtime → Instruction → Bank → Type 0
IsPermitted rt (create_registrar ctx min_trust_score max_verification_age) bank =
    IsTyped ctx min_trust_score max_verification_age
IsPermitted rt (update_registrar ctx min_trust_score max_verification_age) bank =
    (min_trust_score < 2 ^ 16) × IsI64 max_verification_age
IsPermitted rt (create_voter_weight_record ctx governing_token_owner) bank =
    IsPubkey governing_token_owner
IsPermitted rt (update_voter_weight_record ctx) bank =
    IsHost bank
    × IsTagged rt.voter_weight_record_discriminator bank.accounts ctx.voter_weight_record.key
IsPermitted rt (update_voter_weight_record_for_action ctx weight_action weight_action_target) bank =
    IsHost bank
    × IsTagged rt.voter_weight_record_discriminator bank.accounts ctx.voter_weight_record.key
    × IsPubkey weight_action_target
IsPermitted rt (close_registrar ctx) bank = Unit
IsPermitted rt (close_voter_weight_record ctx) bank = Unit
IsPermitted rt (create_max_voter_weight_record ctx) bank = Unit
IsPermitted rt (update_max_voter_weight_record ctx max_voter_weight) bank =
    IsTagged rt.max_voter_weight_record_discriminator bank.accounts ctx.max_voter_weight_record.key
    × (max_voter_weight < 2 ^ 64)

-- The banks that the program can come to: at first it owns no account; then its instructions succeed
-- as permitted, and anything else happens that keeps the data of its accounts and gives it no new
-- ones. The clock may move at any time.
pub data Reachable (rt : Runtime) : Bank → Type 0 where
  genesis : (bank : Bank) → ((key : Pubkey) → (bank.accounts key).owner ≢ id) → Reachable rt bank
  call :
      (ix : Instruction) (bank after : Bank)
      → Reachable rt bank
      → IsPermitted rt ix bank
      → process rt ix bank ≡ ok after
      → Reachable rt after
  outside :
      (bank after : Bank)
      → Reachable rt bank
      → ((key : Pubkey)
          → (after.accounts key).owner ≡ id
          → SameData (after.accounts key) (bank.accounts key))
      → Reachable rt after
