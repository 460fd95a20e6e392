-- ===== src/Program/Unique.antt =====
-- A voter has one record, wherever the program's instructions have led.
use entros_governance_plugin.Base.{◌≤◌, ◌≡◌, sym, ap, subst, ◌∙◌, inl, inr, arith}
use entros_governance_plugin.Error.{ok_injective}
use entros_governance_plugin.Solana.{Pubkey, Accounts, Bank}
use entros_governance_plugin.Addin.{VoterWeightRecord}
use entros_governance_plugin.Runtime.{Runtime}
use entros_governance_plugin.Runtime.Laws.{IsRuntime}
use entros_governance_plugin.Governance.{voter_weight_record}
use entros_governance_plugin.Instructions.Attributes.{address, voter_weight_record_seeds}
use entros_governance_plugin.Instructions.Attributes.Access.{Holds}
use entros_governance_plugin.Program.Slots.{IsRecordAt, IsSound}
use entros_governance_plugin.Program.Kinds.{IsDiscriminated, IsTagged, IsTagged-RecordAt}
use entros_governance_plugin.Program.Reachable.{Reachable}
use entros_governance_plugin.Program.Sound.{Reachable-IsSound}

-- Two records are of one voter in one realm and mint.
pub record IsSameVoter (v w : VoterWeightRecord) : Type 0 where
  pub realm : v.realm ≡ w.realm
  pub mint : v.governing_token_mint ≡ w.governing_token_mint
  pub owner : v.governing_token_owner ≡ w.governing_token_owner

-- An account of the program that spl-governance takes for a voter's record: it begins with the
-- discriminator, and reads as the given record.
pub record IsBallot (rt : Runtime) (accounts : Accounts) (key : Pubkey) (v : VoterWeightRecord)
    : Type 0 where
  pub tagged : IsTagged rt.voter_weight_record_discriminator accounts key
  pub held : Holds (voter_weight_record rt) accounts key v

-- A ballot of a sound ledger is a record that the program made.
IsBallot-IsRecordAt :
    {rt : Runtime} {accounts : Accounts} {key : Pubkey} {v : VoterWeightRecord}
    → IsDiscriminated rt
    → IsSound rt accounts
    → IsBallot rt accounts key v
    → IsRecordAt rt accounts key v
IsBallot-IsRecordAt {rt} {accounts} {key} tags sound b =
    let (w, h, _) = IsTagged-RecordAt tags b.tagged (sound key b.held.owned) in
    subst (IsRecordAt rt accounts key) (ok_injective (sym h.held.reads ∙ b.held.reads)) h

same_voter_address :
    {rt : Runtime} {accounts : Accounts} {k j : Pubkey} {v w : VoterWeightRecord}
    → IsSameVoter v w
    → IsRecordAt rt accounts k v
    → IsRecordAt rt accounts j w
    → k ≡ j
same_voter_address {rt} {v} {w} same h g =
    h.at_address
    ∙ ap
        (λ r.
          address rt (voter_weight_record_seeds r v.governing_token_mint v.governing_token_owner))
        same.realm
    ∙ ap (λ m. address rt (voter_weight_record_seeds w.realm m v.governing_token_owner)) same.mint
    ∙ ap (λ o. address rt (voter_weight_record_seeds w.realm w.governing_token_mint o)) same.owner
    ∙ sym g.at_address

weight_le_one :
    {rt : Runtime} {accounts : Accounts} {k : Pubkey} {v : VoterWeightRecord}
    → IsRecordAt rt accounts k v
    → v.voter_weight ≤ 1
weight_le_one h = elim h.weight [ inl (none_yet, _) ↦ omega arith | inr (one, _) ↦ omega arith ]

-- On a runtime that behaves as documented and whose three account types begin with different
-- discriminators, two accounts of the program in a reachable bank that begin with the discriminator
-- of a voter's record and read as records of the same realm, mint and owner are one account with
-- one record, whose weight is at most 1. A bank is reachable from an empty program by permitted
-- instructions that succeed and by changes outside that keep the data of the program's accounts and
-- give it no new ones; permitted means that numbers are within their types, that an addin record
-- that is updated begins with the discriminator of its type, which the wrappers do not check, and
-- for an update of a voter's record that bytes are below 256 and the clock is not before 1970.
pub one_ballot :
    {rt : Runtime} (bank : Bank) (k j : Pubkey) (v w : VoterWeightRecord)
    → IsRuntime rt
    → IsDiscriminated rt
    → Reachable rt bank
    → IsBallot rt bank.accounts k v
    → IsBallot rt bank.accounts j w
    → IsSameVoter v w
    → (k ≡ j) × (v ≡ w) × (v.voter_weight ≤ 1)
one_ballot {rt} bank k j v w laws tags r b c same =
    let sound = Reachable-IsSound bank laws tags r in
    let h = IsBallot-IsRecordAt tags sound b in
    let g = IsBallot-IsRecordAt tags sound c in
    let here = same_voter_address same h g in
    let moved = subst (λ i. Holds (voter_weight_record rt) bank.accounts i v) here h.held in
    (here, ok_injective (sym moved.reads ∙ g.held.reads), weight_le_one h)
