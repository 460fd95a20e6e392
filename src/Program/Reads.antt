-- ===== src/Program/Reads.antt =====
-- What every instruction has read, once it succeeds: a registrar, where it takes one, and the record
-- that it takes.
use entros_governance_plugin.Base.{ℕ, ℤ, ◌≡◌}
use entros_governance_plugin.Error.{ok, >>=-inv}
use entros_governance_plugin.Solana.{Pubkey, Bank}
use entros_governance_plugin.Addin
use entros_governance_plugin.State.Action.{VoterWeightAction}
use entros_governance_plugin.State.Registrar.{Registrar}
use entros_governance_plugin.Runtime.{Runtime}
use entros_governance_plugin.Runtime.Laws.{IsRuntime}
use entros_governance_plugin.Governance.{voter_weight_record, max_voter_weight_record}
use entros_governance_plugin.Instructions.Attributes.Access.{Holds}
use entros_governance_plugin.Instructions.UpdateRegistrar
use entros_governance_plugin.Instructions.UpdateRegistrar.{UpdateRegistrar}
use entros_governance_plugin.Instructions.UpdateRegistrar.Effect as UpdateRegistrarEffect
use entros_governance_plugin.Instructions.CloseRegistrar
use entros_governance_plugin.Instructions.CloseRegistrar.{CloseRegistrar}
use entros_governance_plugin.Instructions.CloseRegistrar.Effect as CloseRegistrarEffect
use entros_governance_plugin.Instructions.CreateVoterWeightRecord
use entros_governance_plugin.Instructions.CreateVoterWeightRecord.{CreateVoterWeightRecord}
use entros_governance_plugin.Instructions.CreateVoterWeightRecord.Effect as CreateVoterWeightRecordEffect
use entros_governance_plugin.Instructions.CreateMaxVoterWeightRecord
use entros_governance_plugin.Instructions.CreateMaxVoterWeightRecord.{CreateMaxVoterWeightRecord}
use entros_governance_plugin.Instructions.CreateMaxVoterWeightRecord.Effect as CreateMaxVoterWeightRecordEffect
use entros_governance_plugin.Instructions.UpdateMaxVoterWeightRecord
use entros_governance_plugin.Instructions.UpdateMaxVoterWeightRecord.{UpdateMaxVoterWeightRecord}
use entros_governance_plugin.Instructions.UpdateMaxVoterWeightRecord.Effect as UpdateMaxVoterWeightRecordEffect
use entros_governance_plugin.Instructions.CloseVoterWeightRecord
use entros_governance_plugin.Instructions.CloseVoterWeightRecord.{CloseVoterWeightRecord}
use entros_governance_plugin.Instructions.CloseVoterWeightRecord.Effect as CloseVoterWeightRecordEffect
use entros_governance_plugin.Instructions.UpdateVoterWeightRecord
use entros_governance_plugin.Instructions.UpdateVoterWeightRecord.{UpdateVoterWeightRecord}
use entros_governance_plugin.Instructions.UpdateVoterWeightRecord.Accepted.{try_accounts_iff}

module _ {rt : Runtime} (laws : IsRuntime rt) (bank after : Bank) where
  abbrev ReadsRegistrar : Pubkey → Type 0
  ReadsRegistrar key = (r : Registrar) × Holds rt.registrar bank.accounts key r

  abbrev ReadsRecord : Pubkey → Type 0
  ReadsRecord key =
      (v : Addin.VoterWeightRecord) × Holds (voter_weight_record rt) bank.accounts key v

  abbrev ReadsMax : Pubkey → Type 0
  ReadsMax key =
      (m : Addin.MaxVoterWeightRecord) × Holds (max_voter_weight_record rt) bank.accounts key m

  pub update_registrar-Holds :
      (ctx : UpdateRegistrar) (min_trust_score : ℕ) (max_verification_age : ℤ)
      → UpdateRegistrar.execute rt ctx min_trust_score max_verification_age bank ≡ ok after
      → ReadsRegistrar ctx.registrar.key
  unfolding UpdateRegistrar.execute
  update_registrar-Holds ctx min_trust_score max_verification_age e =
      >>=-inv (UpdateRegistrar.try_accounts rt ctx bank.accounts) e λ r loaded _. (
        r,
        (UpdateRegistrarEffect.try_accounts_effect ctx bank.accounts r laws loaded).registrar_held,
      )

  pub close_registrar-Holds :
      (ctx : CloseRegistrar)
      → CloseRegistrar.execute rt ctx bank ≡ ok after
      → ReadsRegistrar ctx.registrar.key
  unfolding CloseRegistrar.execute
  close_registrar-Holds ctx e =
      >>=-inv (CloseRegistrar.try_accounts rt ctx bank.accounts) e λ r loaded _. (
        r,
        (CloseRegistrarEffect.try_accounts_effect ctx bank.accounts r laws loaded).registrar_held,
      )

  pub create_voter_weight_record-Holds :
      (ctx : CreateVoterWeightRecord) (owner : Pubkey)
      → CreateVoterWeightRecord.execute rt ctx owner bank ≡ ok after
      → ReadsRegistrar ctx.registrar.key
  unfolding CreateVoterWeightRecord.execute
  create_voter_weight_record-Holds ctx owner e =
      >>=-inv (CreateVoterWeightRecord.try_accounts rt ctx owner bank.accounts) e λ p loaded _. (
        p.0,
        (CreateVoterWeightRecordEffect.try_accounts_effect ctx owner bank.accounts p laws
            loaded).registrar_held,
      )

  pub create_max_voter_weight_record-Holds :
      (ctx : CreateMaxVoterWeightRecord)
      → CreateMaxVoterWeightRecord.execute rt ctx bank ≡ ok after
      → ReadsRegistrar ctx.registrar.key
  unfolding CreateMaxVoterWeightRecord.execute
  create_max_voter_weight_record-Holds ctx e =
      >>=-inv (CreateMaxVoterWeightRecord.try_accounts rt ctx bank.accounts) e λ p loaded _. (
        p.0,
        (CreateMaxVoterWeightRecordEffect.try_accounts_effect ctx bank.accounts p laws
            loaded).registrar_held,
      )

  pub update_max_voter_weight_record-Holds :
      (ctx : UpdateMaxVoterWeightRecord) (max_voter_weight : ℕ)
      → UpdateMaxVoterWeightRecord.execute rt ctx max_voter_weight bank ≡ ok after
      → ReadsRegistrar ctx.registrar.key × ReadsMax ctx.max_voter_weight_record.key
  unfolding UpdateMaxVoterWeightRecord.execute
  update_max_voter_weight_record-Holds ctx max_voter_weight e =
      >>=-inv (UpdateMaxVoterWeightRecord.try_accounts rt ctx bank.accounts) e λ q loaded _.
        let h =
          UpdateMaxVoterWeightRecordEffect.try_accounts_effect ctx bank.accounts q.0 q.1 laws
            loaded in
        ((q.0, h.registrar_held), (q.1, h.record_held))

  pub close_voter_weight_record-Holds :
      (ctx : CloseVoterWeightRecord)
      → CloseVoterWeightRecord.execute rt ctx bank ≡ ok after
      → ReadsRecord ctx.voter_weight_record.key
  unfolding CloseVoterWeightRecord.execute
  close_voter_weight_record-Holds ctx e =
      >>=-inv (CloseVoterWeightRecord.try_accounts rt ctx bank.accounts) e λ v loaded _. (
        v,
        (CloseVoterWeightRecordEffect.try_accounts_effect ctx bank.accounts v laws
            loaded).record_held,
      )

  pub update_voter_weight_record-Holds :
      (ctx : UpdateVoterWeightRecord)
      → UpdateVoterWeightRecord.execute rt ctx bank ≡ ok after
      → ReadsRegistrar ctx.registrar.key × ReadsRecord ctx.voter_weight_record.key
  unfolding UpdateVoterWeightRecord.execute
  update_voter_weight_record-Holds ctx e =
      >>=-inv (UpdateVoterWeightRecord.try_accounts rt ctx bank.accounts) e λ p loaded _.
        let h = (try_accounts_iff ctx bank.accounts p.0 p.1 laws).0 loaded in
        ((p.0, h.registrar_held), (p.1, h.record_held))

  pub update_voter_weight_record_for_action-Holds :
      (ctx : UpdateVoterWeightRecord) (action : VoterWeightAction) (target : Pubkey)
      → UpdateVoterWeightRecord.execute_for_action rt ctx action target bank ≡ ok after
      → ReadsRegistrar ctx.registrar.key × ReadsRecord ctx.voter_weight_record.key
  unfolding UpdateVoterWeightRecord.execute_for_action
  update_voter_weight_record_for_action-Holds ctx action target e =
      >>=-inv (UpdateVoterWeightRecord.try_accounts rt ctx bank.accounts) e λ p loaded _.
        let h = (try_accounts_iff ctx bank.accounts p.0 p.1 laws).0 loaded in
        ((p.0, h.registrar_held), (p.1, h.record_held))
