-- ===== src/Program/Sound/Records.antt =====
-- The four instructions on a voter's record keep the accounts sound.
use entros_governance_plugin.Base.{◌≡◌, refl, inl, inr, arith}
use entros_governance_plugin.Error.{ok}
use entros_governance_plugin.Solana.{Pubkey, IsPubkey, Bank}
use entros_governance_plugin.State.Action.{VoterWeightAction}
use entros_governance_plugin.Runtime.{Runtime}
use entros_governance_plugin.Runtime.Laws.{IsRuntime}
use entros_governance_plugin.Instructions.CreateVoterWeightRecord
use entros_governance_plugin.Instructions.CreateVoterWeightRecord.{CreateVoterWeightRecord}
use entros_governance_plugin.Instructions.CreateVoterWeightRecord.Effect.{
  born_expired-IsVoterWeightRecord, create_voter_weight_record_opens,
}
use entros_governance_plugin.Instructions.UpdateVoterWeightRecord
use entros_governance_plugin.Instructions.UpdateVoterWeightRecord.{UpdateVoterWeightRecord}
use entros_governance_plugin.Instructions.UpdateVoterWeightRecord.Granted.{
  general_grant, action_grant, general_grant-IsVoterWeightRecord, action_grant-IsVoterWeightRecord,
}
use entros_governance_plugin.Instructions.UpdateVoterWeightRecord.Grant.{
  update_grants, update_for_action_grants,
}
use entros_governance_plugin.Instructions.CloseVoterWeightRecord
use entros_governance_plugin.Instructions.CloseVoterWeightRecord.{CloseVoterWeightRecord}
use entros_governance_plugin.Instructions.CloseVoterWeightRecord.Effect.{
  close_voter_weight_record_closes,
}
use entros_governance_plugin.Program.Slots.{record_slot, IsSound, change-IsSound, close-IsSound}
use entros_governance_plugin.Program.Reads.{close_voter_weight_record-Holds}
use entros_governance_plugin.Program.Calls.{RegistrarAt, IsUpdate}
use entros_governance_plugin.Program.Sound.Writing.{same_data, Written-Holds}

module _ {rt : Runtime} (laws : IsRuntime rt) (bank after : Bank) where
  pub create_voter_weight_record-IsSound :
      (ctx : CreateVoterWeightRecord) (owner : Pubkey)
      → RegistrarAt rt bank.accounts ctx.registrar.key
      → IsPubkey owner
      → CreateVoterWeightRecord.execute rt ctx owner bank ≡ ok after
      → IsSound rt bank.accounts
      → IsSound rt after.accounts
  create_voter_weight_record-IsSound ctx owner (r, h) key e =
      let c = create_voter_weight_record_opens ctx owner bank r after laws h.held h.valid key e in
      change-IsSound ctx.voter_weight_record.key
        (record_slot _
          (record {
            held = c.opened.held;
            at_address = c.accepted.at_address;
            valid = born_expired-IsVoterWeightRecord rt r owner laws.discriminator_8 h.valid key;
            room = omega (arith, c.opened.sized);
            weight = inl (refl, refl);
            scope = inl (refl, refl);
          })
          refl)
        c.opened.others

  pub update_voter_weight_record-IsSound :
      (ctx : UpdateVoterWeightRecord) (u : IsUpdate rt ctx bank)
      → u.at_record.0.account_discriminator ≡ rt.voter_weight_record_discriminator
      → UpdateVoterWeightRecord.execute rt ctx bank ≡ ok after
      → IsSound rt bank.accounts
      → IsSound rt after.accounts
  update_voter_weight_record-IsSound ctx u tag e =
      let (value, h) = u.at_record in
      let g =
        update_grants laws ctx bank u.registrar value u.at_registrar.held h.held u.machine h.valid
          h.room after e in
      change-IsSound ctx.voter_weight_record.key
        (record_slot (general_grant value g.clock)
          (record {
            held = Written-Holds h.held g.written;
            at_address = h.at_address;
            valid = general_grant-IsVoterWeightRecord value g.clock h.valid;
            room = omega (arith, g.written.kept_length, h.room);
            weight = inr (refl, (_, refl));
            scope = inl (refl, refl);
          })
          tag)
        (λ k other. same_data (g.written.others k other))

  pub update_voter_weight_record_for_action-IsSound :
      (ctx : UpdateVoterWeightRecord) (action : VoterWeightAction) (target : Pubkey)
      (u : IsUpdate rt ctx bank)
      → u.at_record.0.account_discriminator ≡ rt.voter_weight_record_discriminator
      → IsPubkey target
      → UpdateVoterWeightRecord.execute_for_action rt ctx action target bank ≡ ok after
      → IsSound rt bank.accounts
      → IsSound rt after.accounts
  update_voter_weight_record_for_action-IsSound ctx action target u tag key e =
      let (value, h) = u.at_record in
      let (proper, (granted, _, g)) =
        update_for_action_grants laws ctx bank u.registrar value u.at_registrar.held h.held
          u.machine h.valid h.room action target after key e in
      change-IsSound ctx.voter_weight_record.key
        (record_slot (action_grant granted target value g.clock)
          (record {
            held = Written-Holds h.held g.written;
            at_address = h.at_address;
            valid =
                action_grant-IsVoterWeightRecord granted target value g.clock h.valid key
                  (u.machine.slot_u64 g.clock g.eligible.timed);
            room = omega (arith, g.written.kept_length, h.room);
            weight = inr (refl, (_, refl));
            scope = inr (granted, target, refl, refl, proper);
          })
          tag)
        (λ k other. same_data (g.written.others k other))

  pub close_voter_weight_record-IsSound :
      (ctx : CloseVoterWeightRecord)
      → CloseVoterWeightRecord.execute rt ctx bank ≡ ok after
      → IsSound rt bank.accounts
      → IsSound rt after.accounts
  close_voter_weight_record-IsSound ctx e =
      let (value, held) = close_voter_weight_record-Holds laws bank after ctx e in
      let (_, _, c) = close_voter_weight_record_closes ctx bank value after laws held e in
      close-IsSound ctx.voter_weight_record.key c.released c.others
