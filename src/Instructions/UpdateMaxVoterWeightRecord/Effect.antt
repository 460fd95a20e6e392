-- ===== src/Instructions/UpdateMaxVoterWeightRecord/Effect.antt =====
-- What a successful `update_max_voter_weight_record` has checked and done.
use entros_governance_plugin.Base.{
  ℕ, ◌^◌, ◌≤◌, ◌<◌, ◌≡◌, sym, subst, ap₂, ◌∙◌, true, none, length, ◌==◌, ==_iff, ltb, ltb→lt,
}
use entros_governance_plugin.Error.{ok, >>=-inv, >>=-at, require-inv, ok_injective}
use entros_governance_plugin.Solana.{Accounts, Bank}
use entros_governance_plugin.Addin.{MaxVoterWeightRecord}
use entros_governance_plugin.State.Registrar.{Registrar}
use entros_governance_plugin.Runtime.{Runtime}
use entros_governance_plugin.Runtime.Laws.{IsRuntime, IsMaxVoterWeightRecord}
use entros_governance_plugin.Governance.{max_voter_weight_record, max_voter_weight_record_space}
use entros_governance_plugin.Governance.Saved.{wrapper-IsAccountType}
use entros_governance_plugin.Instructions.Attributes.{
  address, registrar_seeds, load, require_realm_authority,
}
use entros_governance_plugin.Instructions.Attributes.Access.{
  Holds, Written, HasAuthority, load_iff, require_realm_authority_iff, exit_writes,
}
use entros_governance_plugin.Instructions.UpdateMaxVoterWeightRecord.{
  UpdateMaxVoterWeightRecord, try_accounts, update_max_voter_weight_record, execute,
}

-- The registrar is at its address, the record is of its realm and mint and can be written, and the
-- authority signs.
pub record IsAccepted (rt : Runtime) (ctx : UpdateMaxVoterWeightRecord) (accounts : Accounts)
    (registrar : Registrar) (value : MaxVoterWeightRecord) : Type 0 where
  pub registrar_held : Holds rt.registrar accounts ctx.registrar.key registrar
  pub record_held :
      Holds (max_voter_weight_record rt) accounts ctx.max_voter_weight_record.key value
  pub signed : ctx.realm_authority.is_signer ≡ true
  pub at_address :
      ctx.registrar.key
      ≡ address rt (registrar_seeds registrar.realm registrar.governing_token_mint)
  pub writable : ctx.max_voter_weight_record.is_writable ≡ true
  pub same_realm : value.realm ≡ registrar.realm
  pub same_mint : value.governing_token_mint ≡ registrar.governing_token_mint
  pub realm_key : ctx.realm.key ≡ registrar.realm

pub try_accounts_effect :
    {rt : Runtime} (ctx : UpdateMaxVoterWeightRecord) (accounts : Accounts) (registrar : Registrar)
    (value : MaxVoterWeightRecord)
    → IsRuntime rt
    → try_accounts rt ctx accounts ≡ ok (registrar, value)
    → IsAccepted rt ctx accounts registrar value
unfolding try_accounts
try_accounts_effect {rt} ctx accounts registrar value laws e =
    >>=-inv (load rt rt.registrar accounts ctx.registrar) e λ r loaded_r e₁.
      >>=-inv (load rt (max_voter_weight_record rt) accounts ctx.max_voter_weight_record) e₁
        λ v loaded_v e₂. require-inv ctx.realm_authority.is_signer _ e₂ λ signed e₃.
          require-inv
            (ctx.registrar.key == address rt (registrar_seeds r.realm r.governing_token_mint)) _ e₃
            λ at_address e₄. require-inv ctx.max_voter_weight_record.is_writable _ e₄ λ writable e₅.
              require-inv (v.realm == r.realm) _ e₅ λ same_realm e₆.
                require-inv (v.governing_token_mint == r.governing_token_mint) _ e₆ λ same_mint e₇.
                  require-inv (ctx.realm.key == r.realm) _ e₇ λ realm_key e₈.
                    subst
                      (λ (p : Registrar × MaxVoterWeightRecord). IsAccepted rt ctx accounts p.0 p.1)
                      (ok_injective e₈)
                      (record {
                        registrar_held =
                            (load_iff laws rt.registrar accounts ctx.registrar r).0 loaded_r;
                        record_held =
                            (load_iff laws (max_voter_weight_record rt) accounts
                                ctx.max_voter_weight_record v).0
                              loaded_v;
                        signed = signed;
                        at_address = (==_iff ctx.registrar.key _).0 at_address;
                        writable = writable;
                        same_realm = (==_iff v.realm r.realm).0 same_realm;
                        same_mint =
                            (==_iff v.governing_token_mint r.governing_token_mint).0 same_mint;
                        realm_key = (==_iff ctx.realm.key r.realm).0 realm_key;
                      })

module _ {rt : Runtime} (laws : IsRuntime rt) (ctx : UpdateMaxVoterWeightRecord) (bank : Bank)
    (registrar : Registrar) (value : MaxVoterWeightRecord)
    (registrar_held : Holds rt.registrar bank.accounts ctx.registrar.key registrar)
    (record_held : Holds
      (max_voter_weight_record rt)
      bank.accounts
      ctx.max_voter_weight_record.key
      value)
    (valid : IsMaxVoterWeightRecord value)
    (room : max_voter_weight_record_space
      ≤ length (bank.accounts ctx.max_voter_weight_record.key).contents) where
  same :
      (p : Registrar × MaxVoterWeightRecord)
      → try_accounts rt ctx bank.accounts ≡ ok p
      → p ≡ (registrar, value)
  same p e =
      let h = try_accounts_effect ctx bank.accounts p.0 p.1 laws e in
      ap₂ {C = Registrar × MaxVoterWeightRecord} (λ r v. (r, v))
        (ok_injective (sym h.registrar_held.reads ∙ registrar_held.reads))
        (ok_injective (sym h.record_held.reads ∙ record_held.reads))

  pub weight-IsMaxVoterWeightRecord :
      (max_voter_weight : ℕ)
      → max_voter_weight < 2 ^ 64
      → IsMaxVoterWeightRecord
          (record value { max_voter_weight = max_voter_weight; max_voter_weight_expiry = none })
  weight-IsMaxVoterWeightRecord max_voter_weight weight = record {
    discriminator_8 = valid.discriminator_8;
    realm_key = valid.realm_key;
    mint_key = valid.mint_key;
    weight_u64 = weight;
    expiry_u64 = tt;
    reserved_8 = valid.reserved_8;
  }

  -- On a runtime that behaves as documented, with a registrar and a valid max voter weight record
  -- with room in the two accounts and a weight of 64 bits, an `update_max_voter_weight_record` that
  -- succeeds was signed by the authority of the registrar's realm, for a record of its realm and
  -- mint, and had a positive weight. The record reads as before but with that weight and no expiry,
  -- and no other account has changed.
  pub update_max_voter_weight_record_writes :
      (max_voter_weight : ℕ) (after : Bank)
      → max_voter_weight < 2 ^ 64
      → execute rt ctx max_voter_weight bank ≡ ok after
      → IsAccepted rt ctx bank.accounts registrar value
        × HasAuthority rt registrar.governance_program_id ctx.realm registrar.governing_token_mint
            ctx.realm_authority.key bank.accounts
        × (0 < max_voter_weight)
        × Written
            (max_voter_weight_record rt)
            ctx.max_voter_weight_record.key
            (record value { max_voter_weight = max_voter_weight; max_voter_weight_expiry = none })
            bank.accounts
            after.accounts
  unfolding execute update_max_voter_weight_record
  update_max_voter_weight_record_writes max_voter_weight after weight e =
      let (loaded, e₁) = >>=-at (try_accounts rt ctx bank.accounts) _ (registrar, value) e same in
      >>=-inv (update_max_voter_weight_record rt ctx bank.accounts registrar value max_voter_weight)
        e₁
        λ updated made e₂. require-inv (ltb 0 max_voter_weight) _ made λ positive made₁.
          >>=-inv
            (require_realm_authority rt registrar.governance_program_id ctx.realm
              registrar.governing_token_mint ctx.realm_authority bank.accounts)
            made₁
            λ _ authorized done. (
              try_accounts_effect ctx bank.accounts registrar value laws loaded,
              (require_realm_authority_iff laws registrar.governance_program_id ctx.realm
                    registrar.governing_token_mint ctx.realm_authority bank.accounts).0
                  authorized,
              ltb→lt 0 max_voter_weight positive,
              exit_writes (wrapper-IsAccountType laws.max_voter_weight_record_borsh)
                  ctx.max_voter_weight_record _ bank.accounts
                  (weight-IsMaxVoterWeightRecord max_voter_weight weight) room bank after
                  (rw (ok_injective done) e₂),
            )
