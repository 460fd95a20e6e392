-- ===== src/Instructions/CreateMaxVoterWeightRecord/Effect.antt =====
-- What a successful `create_max_voter_weight_record` has checked and done.
use entros_governance_plugin.Base.{
  ◌≡◌, refl, sym, subst, ◌∙◌, true, some, length, replicate, ◌==◌, ==_iff, arith,
}
use entros_governance_plugin.Error.{ok, >>=-inv, require-inv, ok_injective}
use entros_governance_plugin.Solana.{Accounts, Bank}
use entros_governance_plugin.Addin.{MaxVoterWeightRecord}
use entros_governance_plugin.State.Registrar
use entros_governance_plugin.State.Registrar.{Registrar}
use entros_governance_plugin.Runtime.{Runtime}
use entros_governance_plugin.Runtime.Laws.{
  IsRuntime, IsMaxVoterWeightRecord, Created, zero_max_voter_weight_record,
}
use entros_governance_plugin.Governance.{max_voter_weight_record, max_voter_weight_record_space}
use entros_governance_plugin.Governance.Saved.{wrapper-IsAccountType}
use entros_governance_plugin.Instructions.Attributes.{
  address, system_program, registrar_seeds, max_voter_weight_record_seeds, load, init,
  require_realm_authority,
}
use entros_governance_plugin.Instructions.Attributes.Access.{
  Holds, Opened, HasAuthority, Created-Written, Created-room, load_iff, init_effect, exit_writes,
  require_realm_authority_iff,
}
use entros_governance_plugin.Instructions.CreateMaxVoterWeightRecord.{
  CreateMaxVoterWeightRecord, try_accounts, create_max_voter_weight_record, execute,
}

-- The registrar is at its address, the record is at the address of the registrar's realm and mint,
-- which was not in use, and the authority and the payer sign.
pub record IsAccepted (rt : Runtime) (ctx : CreateMaxVoterWeightRecord) (accounts : Accounts)
    (p : Registrar × MaxVoterWeightRecord × Accounts) : Type 0 where
  pub registrar_held : Holds rt.registrar accounts ctx.registrar.key p.0
  pub registrar_address :
      ctx.registrar.key ≡ address rt (registrar_seeds p.0.realm p.0.governing_token_mint)
  pub zeroed : p.1 ≡ zero_max_voter_weight_record
  pub created : Created ctx.max_voter_weight_record.key max_voter_weight_record_space accounts p.2
  pub at_address :
      ctx.max_voter_weight_record.key
      ≡ address rt (max_voter_weight_record_seeds p.0.realm p.0.governing_token_mint)
  pub same_realm : ctx.realm.key ≡ p.0.realm
  pub signed : ctx.realm_authority.is_signer ≡ true
  pub paid : ctx.payer.is_signer ≡ true

pub try_accounts_effect :
    {rt : Runtime} (ctx : CreateMaxVoterWeightRecord) (accounts : Accounts)
    (p : Registrar × MaxVoterWeightRecord × Accounts)
    → IsRuntime rt
    → try_accounts rt ctx accounts ≡ ok p
    → IsAccepted rt ctx accounts p
unfolding try_accounts
try_accounts_effect {rt} ctx accounts p laws e =
    >>=-inv (load rt rt.registrar accounts ctx.registrar) e λ r loaded e₁.
      let seeds = max_voter_weight_record_seeds r.realm r.governing_token_mint in
      require-inv ctx.realm_authority.is_signer _ e₁ λ signed e₂.
        require-inv ctx.payer.is_signer _ e₂ λ paid e₃.
          >>=-inv (system_program accounts ctx.system_program) e₃ λ _ _ e₄.
            >>=-inv
              (init rt (max_voter_weight_record rt) ctx.max_voter_weight_record seeds ctx.payer
                max_voter_weight_record_space accounts)
              e₄
              λ q initialised e₅.
                let (at_address, zeroed, _, created) =
                  init_effect laws ctx.max_voter_weight_record seeds ctx.payer accounts q.0 q.1
                    (wrapper-IsAccountType laws.max_voter_weight_record_borsh) initialised in
                require-inv
                  (ctx.registrar.key == address rt (registrar_seeds r.realm r.governing_token_mint))
                  _ e₅
                  λ registrar_address e₆.
                    require-inv (ctx.realm.key == r.realm) _ e₆ λ same_realm e₇.
                      require-inv ctx.payer.is_writable _ e₇ λ _ e₈.
                        subst (IsAccepted rt ctx accounts) (ok_injective e₈) (record {
                          registrar_held =
                              (load_iff laws rt.registrar accounts ctx.registrar r).0 loaded;
                          registrar_address = (==_iff ctx.registrar.key _).0 registrar_address;
                          zeroed = zeroed;
                          created = created;
                          at_address = at_address;
                          same_realm = (==_iff ctx.realm.key r.realm).0 same_realm;
                          signed = signed;
                          paid = paid;
                        })

-- The record that is made: no weight, and expired at slot 0.
module _ (rt : Runtime) (registrar : Registrar) where
  abbrev pub born_expired : MaxVoterWeightRecord
  born_expired = record {
    account_discriminator = rt.max_voter_weight_record_discriminator;
    realm = registrar.realm;
    governing_token_mint = registrar.governing_token_mint;
    max_voter_weight = 0;
    max_voter_weight_expiry = some 0;
    reserved = replicate 8 0;
  }

  pub born_expired-IsMaxVoterWeightRecord :
      length rt.max_voter_weight_record_discriminator ≡ 8
      → Registrar.IsValid registrar
      → IsMaxVoterWeightRecord born_expired
  born_expired-IsMaxVoterWeightRecord eight valid = record {
    discriminator_8 = eight;
    realm_key = valid.realm_key;
    mint_key = valid.mint_key;
    weight_u64 = omega arith;
    expiry_u64 = omega arith;
    reserved_8 = refl;
  }

-- What a successful creation has done.
pub record IsBorn (rt : Runtime) (ctx : CreateMaxVoterWeightRecord) (bank : Bank)
    (registrar : Registrar) (after : Bank) : Type 0 where
  pub zeroed : MaxVoterWeightRecord
  pub created : Accounts
  pub accepted : IsAccepted rt ctx bank.accounts (registrar, zeroed, created)
  pub authorized :
      HasAuthority rt registrar.governance_program_id ctx.realm registrar.governing_token_mint
        ctx.realm_authority.key created
  pub opened :
      Opened
        (max_voter_weight_record rt)
        ctx.max_voter_weight_record.key
        (born_expired rt registrar)
        max_voter_weight_record_space
        bank.accounts
        after.accounts

-- On a runtime that behaves as documented, with a valid registrar in its account, a
-- `create_max_voter_weight_record` that succeeds was signed by the authority of the registrar's
-- realm and by the payer. It has opened the record of the registrar's realm and mint, with no
-- weight and expired, at the derived address, not in use before, and no other account's owner or
-- data has changed.
pub create_max_voter_weight_record_opens :
    {rt : Runtime} (ctx : CreateMaxVoterWeightRecord) (bank : Bank) (registrar : Registrar)
    (after : Bank)
    → IsRuntime rt
    → Holds rt.registrar bank.accounts ctx.registrar.key registrar
    → Registrar.IsValid registrar
    → execute rt ctx bank ≡ ok after
    → IsBorn rt ctx bank registrar after
unfolding execute create_max_voter_weight_record
create_max_voter_weight_record_opens {rt} ctx bank registrar after laws held valid e =
    >>=-inv (try_accounts rt ctx bank.accounts) e λ p loaded e₁.
      let first = try_accounts_effect ctx bank.accounts p laws loaded in
      let same : p.0 ≡ registrar = ok_injective (sym first.registrar_held.reads ∙ held.reads) in
      >>=-inv (create_max_voter_weight_record rt ctx p.2 p.0 p.1) e₁ λ made did_make e₂.
        >>=-inv
          (require_realm_authority rt p.0.governance_program_id ctx.realm p.0.governing_token_mint
            ctx.realm_authority p.2)
          did_make
          λ _ authorized value.
            let born : made ≡ born_expired rt registrar =
              rw (← ok_injective value, first.zeroed, same) in
            record {
              zeroed = p.1;
              created = p.2;
              accepted = subst (λ r. IsAccepted rt ctx bank.accounts (r, p.1, p.2)) same first;
              authorized =
                  subst
                    (λ (r : Registrar).
                      HasAuthority rt r.governance_program_id ctx.realm r.governing_token_mint
                        ctx.realm_authority.key p.2)
                    same
                    ((require_realm_authority_iff laws p.0.governance_program_id ctx.realm
                        p.0.governing_token_mint ctx.realm_authority p.2).0
                      authorized);
              opened = Created-Written first.created (
                  exit_writes (wrapper-IsAccountType laws.max_voter_weight_record_borsh)
                    ctx.max_voter_weight_record (born_expired rt registrar) p.2
                    (born_expired-IsMaxVoterWeightRecord rt registrar laws.max_discriminator_8
                      valid)
                    (Created-room first.created) bank after (rw born at e₂));
            }
