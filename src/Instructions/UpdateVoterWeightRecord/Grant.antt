-- ===== src/Instructions/UpdateVoterWeightRecord/Grant.antt =====
-- What a successful update does to the ledger, and when an update succeeds.
use entros_governance_plugin.Base.{
  ◌≤◌, ◌≡◌, ◌≢◌, sym, subst, ap, ap₂, subst₂, ◌∙◌, not, length, ◌==◌, ==_self,
}
use entros_governance_plugin.Error.{Result, ok, ◌>>=◌, >>=-inv, require-inv, ok_injective}
use entros_governance_plugin.Solana.{Pubkey, default_pubkey, IsPubkey, Bank, Clock}
use entros_governance_plugin.Addin
use entros_governance_plugin.Addin.{VoterWeightRecord}
use entros_governance_plugin.State.Registrar.{Registrar}
use entros_governance_plugin.State.Action.{VoterWeightAction, from}
use entros_governance_plugin.Runtime.{Runtime}
use entros_governance_plugin.Runtime.Laws.{IsRuntime, IsVoterWeightRecord}
use entros_governance_plugin.Governance.{voter_weight_record, voter_weight_record_space}
use entros_governance_plugin.Governance.Saved.{wrapper-IsAccountType}
use entros_governance_plugin.Instructions.Attributes.{exit}
use entros_governance_plugin.Instructions.Attributes.Access.{Holds, Written, exit_effect}
use entros_governance_plugin.Instructions.UpdateVoterWeightRecord.{
  UpdateVoterWeightRecord, try_accounts, update_voter_weight_record,
  update_voter_weight_record_for_action, execute, execute_for_action,
}
use entros_governance_plugin.Instructions.UpdateVoterWeightRecord.Identity.{
  verify_voter_identity_and_recency,
}
use entros_governance_plugin.Instructions.UpdateVoterWeightRecord.Eligibility.{IsMachine}
use entros_governance_plugin.Instructions.UpdateVoterWeightRecord.Accepted.{
  IsAccepted, try_accounts_iff,
}
use entros_governance_plugin.Instructions.UpdateVoterWeightRecord.Verify.{verify_iff}
use entros_governance_plugin.Instructions.UpdateVoterWeightRecord.Granted.{
  IsGranted, Namesake, from-Namesake, saturating_add-window, general_grant, action_grant,
  general_grant-IsVoterWeightRecord, action_grant-IsVoterWeightRecord,
}

module _ {rt : Runtime} (laws : IsRuntime rt) (ctx : UpdateVoterWeightRecord) (bank : Bank)
    (registrar : Registrar) (value : VoterWeightRecord)
    (registrar_held : Holds rt.registrar bank.accounts ctx.registrar.key registrar)
    (record_held : Holds (voter_weight_record rt) bank.accounts ctx.voter_weight_record.key value)
    (machine : IsMachine registrar bank) (valid : IsVoterWeightRecord value)
    (room : voter_weight_record_space
      ≤ length (bank.accounts ctx.voter_weight_record.key).contents) where
  -- The handler is given the accounts that are held.
  inspect :
      (k : Registrar × VoterWeightRecord → Result Bank) (after : Bank)
      → (try_accounts rt ctx bank.accounts >>= k) ≡ ok after
      → IsAccepted rt ctx bank.accounts registrar value × (k (registrar, value) ≡ ok after)
  inspect k after e = >>=-inv (try_accounts rt ctx bank.accounts) e λ p loaded rest.
      let h = (try_accounts_iff ctx bank.accounts p.0 p.1 laws).0 loaded in
      let same_registrar = ok_injective (sym h.registrar_held.reads ∙ registrar_held.reads) in
      let same_value = ok_injective (sym h.record_held.reads ∙ record_held.reads) in
      let same =
        ap₂ {C = Registrar × VoterWeightRecord} (λ r v. (r, v)) same_registrar same_value in
      (
        subst₂ (IsAccepted rt ctx bank.accounts) same_registrar same_value h,
        subst (λ q. k q ≡ ok after) same rest,
      )

  timed :
      (clock : Clock)
      → verify_voter_identity_and_recency rt registrar value ctx.voter_authority.key
          ctx.remaining_accounts bank
        ≡ ok clock
      → bank.clock ≡ ok clock
  timed clock e =
      ((verify_iff rt registrar value ctx.voter_authority.key ctx.remaining_accounts bank clock
          machine).0
        e).timed

  -- What is left once the new record is known: it is written back.
  write_back :
      (grant : Clock → VoterWeightRecord) (clock : Clock) (after : Bank)
      → IsAccepted rt ctx bank.accounts registrar value
      → verify_voter_identity_and_recency rt registrar value ctx.voter_authority.key
          ctx.remaining_accounts bank
        ≡ ok clock
      → IsVoterWeightRecord (grant clock)
      → (exit (voter_weight_record rt) ctx.voter_weight_record (grant clock) bank.accounts
          >>= λ accounts. ok (record bank { accounts = accounts }))
        ≡ ok after
      → IsGranted rt ctx bank registrar value grant after
  write_back grant clock after accepted verified fits e =
      >>=-inv (exit (voter_weight_record rt) ctx.voter_weight_record (grant clock) bank.accounts) e
        λ accounts wrote done. record {
          clock = clock;
          accepted = accepted;
          eligible =
              (verify_iff rt registrar value ctx.voter_authority.key ctx.remaining_accounts bank
                  clock machine).0
                verified;
          written =
              subst
                (λ (b : Bank).
                  Written (voter_weight_record rt) ctx.voter_weight_record.key (grant clock)
                    bank.accounts b.accounts)
                (ok_injective done)
                (exit_effect (wrapper-IsAccountType laws.voter_weight_record_borsh)
                  ctx.voter_weight_record (grant clock) bank.accounts fits room accounts wrote);
          kept_clock = ap (λ (b : Bank). b.clock) (sym (ok_injective done));
        }

  -- On a runtime that behaves as documented, with a registrar and a valid record with room for its
  -- space in the two accounts, and a machine that keeps its types, with a clock that is not before
  -- 1970: an `update_voter_weight_record` that succeeds was for an eligible voter with its accounts
  -- in order. The record reads as before but with weight 1, an expiry at the clock's slot plus 10,
  -- or at the greatest u64 where that sum does not fit, and no action or target; its owner and
  -- size, the clock and all other accounts are as before.
  pub update_grants :
      (after : Bank)
      → execute rt ctx bank ≡ ok after
      → IsGranted rt ctx bank registrar value (general_grant value) after
  unfolding execute update_voter_weight_record
  update_grants after e =
      let (accepted, e₁) = inspect _ after e in
      >>=-inv (update_voter_weight_record rt ctx registrar value bank) e₁ λ updated made e₂.
        >>=-inv
          (verify_voter_identity_and_recency rt registrar value ctx.voter_authority.key
            ctx.remaining_accounts bank)
          made
          λ clock verified same.
            write_back (general_grant value) clock after accepted verified
              (general_grant-IsVoterWeightRecord value clock valid)
              (rw (← saturating_add-window clock.slot, ok_injective same) e₂)

  -- On a runtime that behaves as documented, with a registrar and a valid record with room for its
  -- space in the two accounts, a machine that keeps its types, with a clock that is not before
  -- 1970, and a target of 32 bytes: an `update_voter_weight_record_for_action` that succeeds had a
  -- target that is not the default key and was for an eligible voter with its accounts in order.
  -- The record reads as before but with weight 1, an expiry at the clock's slot, the given target
  -- and the action of the addin's API of the same name as the given one, by a table of the five;
  -- its owner and size, the clock and all other accounts are as before.
  pub update_for_action_grants :
      (action : VoterWeightAction) (target : Pubkey) (after : Bank)
      → IsPubkey target
      → execute_for_action rt ctx action target bank ≡ ok after
      → (target ≢ default_pubkey)
        × ((granted : Addin.VoterWeightAction) × Namesake action granted
            × IsGranted rt ctx bank registrar value (action_grant granted target value) after)
  unfolding execute_for_action update_voter_weight_record_for_action
  update_for_action_grants action target after key e =
      let (accepted, e₁) = inspect _ after e in
      >>=-inv (update_voter_weight_record_for_action rt ctx registrar value action target bank) e₁
        λ updated made e₂. require-inv (not (target == default_pubkey)) _ made λ proper made₁.
          >>=-inv
            (verify_voter_identity_and_recency rt registrar value ctx.voter_authority.key
              ctx.remaining_accounts bank)
            made₁
            λ clock verified same. (
              λ h. cc (proper, rw h at (==_self target)),
              (
                from action,
                from-Namesake action,
                write_back (action_grant (from action) target value) clock after accepted verified
                    (action_grant-IsVoterWeightRecord (from action) target value clock valid key
                      (machine.slot_u64 clock (timed clock verified)))
                    (rw (ok_injective same) e₂),
              ),
            )
