-- ===== src/Examples/Witnesses/Accounts.antt =====
-- The theorems on the program and on its accounts, applied on the ledger of `Ledger`.
use entros_governance_plugin.Base.{◌≡◌, ◌≢◌, refl, [], ◌∷◌, arith}
use entros_governance_plugin.Error.{ok}
use entros_governance_plugin.Solana.{Pubkey}
use entros_governance_plugin.State.Registrar
use entros_governance_plugin.State.Registrar.{len}
use entros_governance_plugin.Runtime.Laws.{
  SameData, IsVoterWeightRecord, IsAccountType, zero_registrar, zero_voter_weight_record,
}
use entros_governance_plugin.Governance.{wrapper, voter_weight_record_space}
use entros_governance_plugin.Governance.Saved.{wrapper-IsAccountType}
use entros_governance_plugin.Layout.{registrar_account, voter_weight_record_borsh}
use entros_governance_plugin.Layout.Space.{
  registrar_account-IsAccountType, voter_weight_record_borsh-IsBorsh,
}
use entros_governance_plugin.Instructions.Attributes.Addresses.{record_of, address-injective}
use entros_governance_plugin.Program.{update_voter_weight_record, process}
use entros_governance_plugin.Program.Authority.{IsAuthorised, process-IsAuthorised}
use entros_governance_plugin.Program.Slots.{IsSound}
use entros_governance_plugin.Program.Unique.{one_ballot}
use entros_governance_plugin.Program.Sound.{process-IsSound, Reachable-IsSound}
use entros_governance_plugin.Examples.Localnet.{
  localnet, localnet-IsRuntime, localnet-IsCollisionFree,
}
use entros_governance_plugin.Examples.Ledger.{
  realm, mint, voter, registrar, record_key, bank, update,
}
use entros_governance_plugin.Examples.Runs.{bank_of, updated, updated_ok}
use entros_governance_plugin.Addin.{VoterWeightRecord}
use entros_governance_plugin.Base.{◌≤◌}
use entros_governance_plugin.Instructions.CreateVoterWeightRecord.Effect.{born_expired}
use entros_governance_plugin.Examples.Localnet.{localnet-IsDiscriminated}
use entros_governance_plugin.Examples.Ledger.{newcomer, newcomer_record_key}
use entros_governance_plugin.Examples.Enrolled.{enrolled}
use entros_governance_plugin.Examples.Sound.{
  update-IsUpdate, bank-IsHost, record-IsTagged, accounts-IsSound, enrolled-Reachable,
  enrolled-IsBallot,
}

abbrev ballot : VoterWeightRecord
ballot = born_expired localnet registrar newcomer

wrapper-IsAccountType_example :
    IsAccountType
      (wrapper voter_weight_record_borsh)
      IsVoterWeightRecord
      voter_weight_record_space
      zero_voter_weight_record
wrapper-IsAccountType_example = wrapper-IsAccountType voter_weight_record_borsh-IsBorsh

registrar_account-IsAccountType_example :
    IsAccountType
      (registrar_account (193 ∷ 202 ∷ 205 ∷ 51 ∷ 78 ∷ 168 ∷ 150 ∷ 128 ∷ []))
      Registrar.IsValid
      len
      zero_registrar
registrar_account-IsAccountType_example =
    registrar_account-IsAccountType (193 ∷ 202 ∷ 205 ∷ 51 ∷ 78 ∷ 168 ∷ 150 ∷ 128 ∷ []) refl

processed_update : process localnet (update_voter_weight_record update) bank ≡ ok (bank_of updated)
unfolding process
processed_update = updated_ok

process-IsSound_example : IsSound localnet (bank_of updated).accounts
process-IsSound_example =
    process-IsSound (update_voter_weight_record update) bank (bank_of updated) localnet-IsRuntime
      localnet-IsDiscriminated (bank-IsHost, record-IsTagged) processed_update accounts-IsSound

Reachable-IsSound_example : IsSound localnet (bank_of enrolled).accounts
Reachable-IsSound_example =
    Reachable-IsSound (bank_of enrolled) localnet-IsRuntime localnet-IsDiscriminated
      enrolled-Reachable

one_ballot_example :
    (newcomer_record_key ≡ newcomer_record_key) × (ballot ≡ ballot) × (ballot.voter_weight ≤ 1)
one_ballot_example =
    one_ballot (bank_of enrolled) newcomer_record_key newcomer_record_key ballot ballot
      localnet-IsRuntime localnet-IsDiscriminated enrolled-Reachable enrolled-IsBallot
      enrolled-IsBallot (record { realm = refl; mint = refl; owner = refl })

process-IsAuthorised_example :
    IsAuthorised localnet (update_voter_weight_record update) bank.accounts
    × ((key : Pubkey)
        → key ≢ record_key
        → SameData ((bank_of updated).accounts key) (bank.accounts key))
process-IsAuthorised_example =
    process-IsAuthorised (update_voter_weight_record update) bank (bank_of updated)
      localnet-IsRuntime update-IsUpdate processed_update

address-injective_example : record_of realm mint voter ≡ record_of realm mint voter
address-injective_example =
    address-injective localnet (record_of realm mint voter) (record_of realm mint voter)
      localnet-IsCollisionFree (omega arith, omega arith, omega arith)
      (omega arith, omega arith, omega arith) refl
