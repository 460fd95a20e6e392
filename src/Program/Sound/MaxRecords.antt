-- ===== src/Program/Sound/MaxRecords.antt =====
-- The two instructions on a max voter weight record keep the accounts sound.
use entros_governance_plugin.Base.{ℕ, ◌^◌, ◌<◌, ◌≡◌, refl, inl, inr, arith}
use entros_governance_plugin.Error.{ok}
use entros_governance_plugin.Addin
use entros_governance_plugin.Solana.{Bank}
use entros_governance_plugin.Runtime.{Runtime}
use entros_governance_plugin.Runtime.Laws.{IsRuntime}
use entros_governance_plugin.Instructions.CreateMaxVoterWeightRecord
use entros_governance_plugin.Instructions.CreateMaxVoterWeightRecord.{CreateMaxVoterWeightRecord}
use entros_governance_plugin.Instructions.CreateMaxVoterWeightRecord.Effect.{
  born_expired-IsMaxVoterWeightRecord, create_max_voter_weight_record_opens,
}
use entros_governance_plugin.Instructions.UpdateMaxVoterWeightRecord
use entros_governance_plugin.Instructions.UpdateMaxVoterWeightRecord.{UpdateMaxVoterWeightRecord}
use entros_governance_plugin.Instructions.UpdateMaxVoterWeightRecord.Effect.{
  weight-IsMaxVoterWeightRecord, update_max_voter_weight_record_writes,
}
use entros_governance_plugin.Program.Slots.{IsMaxAt, max_slot, IsSound, change-IsSound}
use entros_governance_plugin.Program.Calls.{RegistrarAt}
use entros_governance_plugin.Program.Sound.Writing.{same_data, Written-Holds}

module _ {rt : Runtime} (laws : IsRuntime rt) (bank after : Bank) where
  pub create_max_voter_weight_record-IsSound :
      (ctx : CreateMaxVoterWeightRecord)
      → RegistrarAt rt bank.accounts ctx.registrar.key
      → CreateMaxVoterWeightRecord.execute rt ctx bank ≡ ok after
      → IsSound rt bank.accounts
      → IsSound rt after.accounts
  create_max_voter_weight_record-IsSound ctx (r, h) e =
      let c = create_max_voter_weight_record_opens ctx bank r after laws h.held h.valid e in
      change-IsSound ctx.max_voter_weight_record.key
        (max_slot _
          (record {
            held = c.opened.held;
            at_address = c.accepted.at_address;
            valid = born_expired-IsMaxVoterWeightRecord rt r laws.max_discriminator_8 h.valid;
            room = omega (arith, c.opened.sized);
            weight = inl (refl, refl);
          })
          refl)
        c.opened.others

  pub update_max_voter_weight_record-IsSound :
      (ctx : UpdateMaxVoterWeightRecord) (max_voter_weight : ℕ)
      → RegistrarAt rt bank.accounts ctx.registrar.key
      → ((m : Addin.MaxVoterWeightRecord) × IsMaxAt rt bank.accounts ctx.max_voter_weight_record.key
            m
          × (m.account_discriminator ≡ rt.max_voter_weight_record_discriminator))
      → max_voter_weight < 2 ^ 64
      → UpdateMaxVoterWeightRecord.execute rt ctx max_voter_weight bank ≡ ok after
      → IsSound rt bank.accounts
      → IsSound rt after.accounts
  update_max_voter_weight_record-IsSound ctx max_voter_weight (r, hr) (m, h, tag) weight e =
      let (_, _, positive, written) =
        update_max_voter_weight_record_writes laws ctx bank r m hr.held h.held h.valid h.room
          max_voter_weight after weight e in
      change-IsSound ctx.max_voter_weight_record.key
        (max_slot _
          (record {
            held = Written-Holds h.held written;
            at_address = h.at_address;
            valid =
                weight-IsMaxVoterWeightRecord laws ctx bank r m hr.held h.held h.valid h.room
                  max_voter_weight weight;
            room = omega (arith, written.kept_length, h.room);
            weight = inr (positive, refl);
          })
          tag)
        (λ k other. same_data (written.others k other))
