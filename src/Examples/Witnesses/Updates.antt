-- ===== src/Examples/Witnesses/Updates.antt =====
-- The theorems on the updates of a voter's record, applied on the ledger of `Ledger`.
use entros_governance_plugin.Base.{◌≡◌, ◌≢◌, ◌⊎◌, arith}
use entros_governance_plugin.Error.{ok, err, entros, invalid_identity_data}
use entros_governance_plugin.Solana.{default_pubkey}
use entros_governance_plugin.Addin
use entros_governance_plugin.State.Action.{cast_vote}
use entros_governance_plugin.Instructions.UpdateVoterWeightRecord.Identity.{parse_identity}
use entros_governance_plugin.Instructions.UpdateVoterWeightRecord.Parse.{
  IsIdentityState, timestamp_at, trust_score_at, parse_identity_outcome,
}
use entros_governance_plugin.Instructions.UpdateVoterWeightRecord.Granted.{
  IsGranted, Namesake, general_grant, action_grant,
}
use entros_governance_plugin.Instructions.UpdateVoterWeightRecord.Grant.{
  update_grants, update_for_action_grants,
}
use entros_governance_plugin.Examples.Localnet.{localnet, localnet-IsRuntime}
use entros_governance_plugin.Examples.Ledger.{
  registrar, record_of_voter, identity_contents, bank, update,
}
use entros_governance_plugin.Examples.Runs.{bank_of, proposal, updated, updated_ok, cast, cast_ok}
use entros_governance_plugin.Examples.Facts.{
  registrar-Holds, record-Holds, record-room, record-IsVoterWeightRecord, bank-IsMachine,
}

update_grants_example :
    IsGranted localnet update bank registrar record_of_voter
      (general_grant record_of_voter)
      (bank_of updated)
update_grants_example =
    update_grants localnet-IsRuntime update bank registrar record_of_voter registrar-Holds
      record-Holds bank-IsMachine record-IsVoterWeightRecord record-room (bank_of updated)
      updated_ok

update_for_action_grants_example :
    (proposal ≢ default_pubkey)
    × ((granted : Addin.VoterWeightAction) × Namesake cast_vote granted
        × IsGranted localnet update bank registrar record_of_voter
            (action_grant granted proposal record_of_voter)
            (bank_of cast))
update_for_action_grants_example =
    update_for_action_grants localnet-IsRuntime update bank registrar record_of_voter
      registrar-Holds record-Holds bank-IsMachine record-IsVoterWeightRecord record-room cast_vote
      proposal (bank_of cast) (omega arith) cast_ok

parse_identity_outcome_example :
    (IsIdentityState identity_contents
      × (parse_identity identity_contents
          ≡ ok (timestamp_at identity_contents, trust_score_at identity_contents)))
    ⊎ ((¬ IsIdentityState identity_contents)
        × (parse_identity identity_contents ≡ err (entros invalid_identity_data)))
parse_identity_outcome_example = parse_identity_outcome identity_contents
