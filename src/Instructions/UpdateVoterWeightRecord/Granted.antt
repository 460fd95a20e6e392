-- ===== src/Instructions/UpdateVoterWeightRecord/Granted.antt =====
-- What an update is to do: the record that it grants, and what it leaves of the ledger.
use entros_governance_plugin.Base.{ℕ, ◌+◌, ◌^◌, ◌<◌, ◌≡◌, none, some, ltb, if◌then◌else◌, arith}
use entros_governance_plugin.Solana.{Pubkey, IsPubkey, Bank, Clock}
use entros_governance_plugin.Addin
use entros_governance_plugin.Addin.{VoterWeightRecord}
use entros_governance_plugin.State.Registrar.{Registrar}
use entros_governance_plugin.State.Action.{
  VoterWeightAction, cast_vote, comment_proposal, create_governance, create_proposal,
  sign_off_proposal, from,
}
use entros_governance_plugin.Runtime.{Runtime}
use entros_governance_plugin.Runtime.Laws.{IsVoterWeightRecord}
use entros_governance_plugin.Governance.{voter_weight_record}
use entros_governance_plugin.Instructions.Attributes.Access.{Written}
use entros_governance_plugin.Instructions.UpdateVoterWeightRecord.{
  UpdateVoterWeightRecord, saturating_add, voter_weight_expiry_slot_window,
}
use entros_governance_plugin.Instructions.UpdateVoterWeightRecord.Eligibility.{IsEligible}
use entros_governance_plugin.Instructions.UpdateVoterWeightRecord.Accepted.{IsAccepted}

-- What an update that succeeds has done: the accounts were in order, the voter was eligible, and
-- the record reads as `grant` says; its owner and size and all other accounts are as they were.
pub record IsGranted (rt : Runtime) (ctx : UpdateVoterWeightRecord) (bank : Bank)
    (registrar : Registrar) (value : VoterWeightRecord) (grant : Clock → VoterWeightRecord)
    (after : Bank) : Type 0 where
  pub clock : Clock
  pub accepted : IsAccepted rt ctx bank.accounts registrar value
  pub eligible :
      IsEligible rt registrar value ctx.voter_authority.key ctx.remaining_accounts bank clock
  pub written :
      Written
        (voter_weight_record rt)
        ctx.voter_weight_record.key
        (grant clock)
        bank.accounts
        after.accounts
  pub kept_clock : after.clock ≡ bank.clock

-- The action of the addin's API that an action of the instruction stands for.
pub data Namesake : VoterWeightAction → Addin.VoterWeightAction → Type 0 where
  casts_vote : Namesake cast_vote Addin.cast_vote
  comments_proposal : Namesake comment_proposal Addin.comment_proposal
  creates_governance : Namesake create_governance Addin.create_governance
  creates_proposal : Namesake create_proposal Addin.create_proposal
  signs_off_proposal : Namesake sign_off_proposal Addin.sign_off_proposal

pub from-Namesake : (action : VoterWeightAction) → Namesake action (from action)
unfolding from
from-Namesake cast_vote = casts_vote
from-Namesake comment_proposal = comments_proposal
from-Namesake create_governance = creates_governance
from-Namesake create_proposal = creates_proposal
from-Namesake sign_off_proposal = signs_off_proposal

-- Ten slots later, or the last slot where that is not a `u64`.
abbrev pub ten_slots_after : ℕ → ℕ
ten_slots_after slot = if ltb (slot + 10) (2 ^ 64) then slot + 10 else 18_446_744_073_709_551_615

pub saturating_add-window :
    (slot : ℕ) → saturating_add slot voter_weight_expiry_slot_window ≡ ten_slots_after slot
unfolding saturating_add
saturating_add-window slot = ground arith

-- The record of an update for any action, and of one for one action and target.
abbrev pub general_grant : VoterWeightRecord → Clock → VoterWeightRecord
general_grant value clock = record value {
  voter_weight = 1;
  voter_weight_expiry = some (ten_slots_after clock.slot);
  weight_action = none;
  weight_action_target = none;
}

abbrev pub action_grant :
    Addin.VoterWeightAction → Pubkey → VoterWeightRecord → Clock → VoterWeightRecord
action_grant action target value clock = record value {
  voter_weight = 1;
  voter_weight_expiry = some clock.slot;
  weight_action = some action;
  weight_action_target = some target;
}

ten_slots_after-lt : (slot : ℕ) → ten_slots_after slot < 2 ^ 64
ten_slots_after-lt slot = ground arith

pub general_grant-IsVoterWeightRecord :
    (value : VoterWeightRecord) (clock : Clock)
    → IsVoterWeightRecord value
    → IsVoterWeightRecord (general_grant value clock)
general_grant-IsVoterWeightRecord value clock v = record {
  discriminator_8 = v.discriminator_8;
  realm_key = v.realm_key;
  mint_key = v.mint_key;
  owner_key = v.owner_key;
  weight_u64 = omega arith;
  expiry_u64 = ten_slots_after-lt clock.slot;
  target_key = tt;
  reserved_8 = v.reserved_8;
}

pub action_grant-IsVoterWeightRecord :
    (action : Addin.VoterWeightAction) (target : Pubkey) (value : VoterWeightRecord) (clock : Clock)
    → IsVoterWeightRecord value
    → IsPubkey target
    → clock.slot < 2 ^ 64
    → IsVoterWeightRecord (action_grant action target value clock)
action_grant-IsVoterWeightRecord action target value clock v key slot = record {
  discriminator_8 = v.discriminator_8;
  realm_key = v.realm_key;
  mint_key = v.mint_key;
  owner_key = v.owner_key;
  weight_u64 = omega arith;
  expiry_u64 = slot;
  target_key = key;
  reserved_8 = v.reserved_8;
}
