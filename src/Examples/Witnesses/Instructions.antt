-- ===== src/Examples/Witnesses/Instructions.antt =====
-- The theorems on the other instructions, applied on the ledger of `Ledger`.
use entros_governance_plugin.Base.{◌<◌, ◌≡◌, none, pos, ◌<ℤ◌, arith}
use entros_governance_plugin.Runtime.Laws.{Closed}
use entros_governance_plugin.Governance.{max_voter_weight_record}
use entros_governance_plugin.Instructions.Attributes.Access.{HasAuthority, Written}
use entros_governance_plugin.Instructions.CreateRegistrar.Effect.{create_registrar_opens}
use entros_governance_plugin.Instructions.CreateRegistrar.Effect as CreateRegistrar
use entros_governance_plugin.Instructions.UpdateRegistrar.Effect.{update_registrar_writes}
use entros_governance_plugin.Instructions.UpdateRegistrar.Effect as UpdateRegistrar
use entros_governance_plugin.Instructions.CloseRegistrar.Effect.{close_registrar_closes}
use entros_governance_plugin.Instructions.CloseRegistrar.Effect as CloseRegistrar
use entros_governance_plugin.Instructions.CreateVoterWeightRecord.Effect.{
  create_voter_weight_record_opens,
}
use entros_governance_plugin.Instructions.CreateVoterWeightRecord.Effect as CreateVoterWeightRecord
use entros_governance_plugin.Instructions.CloseVoterWeightRecord.Effect.{
  close_voter_weight_record_closes,
}
use entros_governance_plugin.Instructions.CloseVoterWeightRecord.Effect as CloseVoterWeightRecord
use entros_governance_plugin.Instructions.CreateMaxVoterWeightRecord.Effect.{
  create_max_voter_weight_record_opens,
}
use entros_governance_plugin.Instructions.CreateMaxVoterWeightRecord.Effect as CreateMaxVoterWeightRecord
use entros_governance_plugin.Instructions.UpdateMaxVoterWeightRecord.Effect.{
  update_max_voter_weight_record_writes,
}
use entros_governance_plugin.Instructions.UpdateMaxVoterWeightRecord.Effect as UpdateMaxVoterWeightRecord
use entros_governance_plugin.Examples.Localnet.{localnet, localnet-IsRuntime}
use entros_governance_plugin.Examples.Ledger.{
  realm, governance, mint, payer, voter, authority, newcomer, registrar, record_of_voter,
  max_record, registrar_key, record_key, max_record_key, bank, bare_bank, max_bank, reads, create,
  reconfigure, close, join, leave, create_max, set_max,
}
use entros_governance_plugin.Examples.Runs.{
  bank_of, created, created_ok, reconfigured, reconfigured_ok, closed, closed_ok, joined, joined_ok,
  left, left_ok, max_created, max_created_ok, max_updated, max_updated_ok,
}
use entros_governance_plugin.Examples.Sound.{create-IsTyped}
use entros_governance_plugin.Examples.Facts.{
  registrar-Holds, registrar-Holds_with_max, record-Holds, max_record-Holds, registrar-room,
  max_record-room, registrar-IsValid, max_record-IsMaxVoterWeightRecord,
}

create_registrar_opens_example :
    CreateRegistrar.IsConfigured localnet create bare_bank 100 (pos 3600) (bank_of created)
create_registrar_opens_example =
    create_registrar_opens create bare_bank 100 (pos 3600) (bank_of created) localnet-IsRuntime
      create-IsTyped created_ok

update_registrar_writes_example :
    UpdateRegistrar.IsAccepted localnet reconfigure bank.accounts registrar
    × HasAuthority localnet governance (reads realm) mint authority bank.accounts
    × (pos 0 <ℤ pos 3600)
    × Written localnet.registrar registrar_key
        (record registrar { min_trust_score = 150; max_verification_age = pos 3600 })
        bank.accounts
        (bank_of reconfigured).accounts
update_registrar_writes_example =
    update_registrar_writes localnet-IsRuntime reconfigure bank registrar registrar-Holds
      registrar-IsValid registrar-room 150 (pos 3600) (bank_of reconfigured) (omega arith)
      (omega arith, omega arith) reconfigured_ok

close_registrar_closes_example :
    CloseRegistrar.IsAccepted localnet close bank.accounts registrar
    × HasAuthority localnet governance (reads realm) mint authority bank.accounts
    × Closed registrar_key payer bank.accounts (bank_of closed).accounts
close_registrar_closes_example =
    close_registrar_closes close bank registrar (bank_of closed) localnet-IsRuntime registrar-Holds
      closed_ok

create_voter_weight_record_opens_example :
    CreateVoterWeightRecord.IsBorn localnet join newcomer bank registrar (bank_of joined)
create_voter_weight_record_opens_example =
    create_voter_weight_record_opens join newcomer bank registrar (bank_of joined)
      localnet-IsRuntime registrar-Holds registrar-IsValid (omega arith) joined_ok

close_voter_weight_record_closes_example :
    CloseVoterWeightRecord.IsAccepted localnet leave bank.accounts record_of_voter
    × (voter ≡ voter)
    × Closed record_key payer bank.accounts (bank_of left).accounts
close_voter_weight_record_closes_example =
    close_voter_weight_record_closes leave bank record_of_voter (bank_of left) localnet-IsRuntime
      record-Holds left_ok

create_max_voter_weight_record_opens_example :
    CreateMaxVoterWeightRecord.IsBorn localnet create_max bank registrar (bank_of max_created)
create_max_voter_weight_record_opens_example =
    create_max_voter_weight_record_opens create_max bank registrar (bank_of max_created)
      localnet-IsRuntime registrar-Holds registrar-IsValid max_created_ok

update_max_voter_weight_record_writes_example :
    UpdateMaxVoterWeightRecord.IsAccepted localnet set_max max_bank.accounts registrar max_record
    × HasAuthority localnet governance (reads realm) mint authority max_bank.accounts
    × (0 < 42)
    × Written
        (max_voter_weight_record localnet)
        max_record_key
        (record max_record { max_voter_weight = 42; max_voter_weight_expiry = none })
        max_bank.accounts
        (bank_of max_updated).accounts
update_max_voter_weight_record_writes_example =
    update_max_voter_weight_record_writes localnet-IsRuntime set_max max_bank registrar max_record
      registrar-Holds_with_max max_record-Holds max_record-IsMaxVoterWeightRecord max_record-room 42
      (bank_of max_updated) (omega arith) max_updated_ok
