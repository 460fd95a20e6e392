-- ===== src/Instructions/CreateVoterWeightRecord/Effect.antt =====
-- What a successful `create_voter_weight_record` has checked and done.
use entros_governance_plugin.Base.{
  ◌≡◌, refl, sym, subst, ◌∙◌, true, none, some, length, replicate, ◌==◌, ==_iff, arith,
}
use entros_governance_plugin.Error.{ok, >>=-inv, require-inv, ok_injective}
use entros_governance_plugin.Solana.{Pubkey, IsPubkey, Accounts, Bank}
use entros_governance_plugin.Addin.{VoterWeightRecord}
use entros_governance_plugin.State.Registrar
use entros_governance_plugin.State.Registrar.{Registrar}
use entros_governance_plugin.Runtime.{Runtime}
use entros_governance_plugin.Runtime.Laws.{
  IsRuntime, IsVoterWeightRecord, Created, zero_voter_weight_record,
}
use entros_governance_plugin.Governance.{voter_weight_record, voter_weight_record_space}
use entros_governance_plugin.Governance.Saved.{wrapper-IsAccountType}
use entros_governance_plugin.Instructions.Attributes.{
  address, system_program, registrar_seeds, voter_weight_record_seeds, load, init,
}
use entros_governance_plugin.Instructions.Attributes.Access.{
  Holds, Opened, Created-Written, Created-room, load_iff, init_effect, exit_writes,
}
use entros_governance_plugin.Instructions.CreateVoterWeightRecord.{
  CreateVoterWeightRecord, try_accounts, create_voter_weight_record, execute,
}

-- The registrar is at its address, the record is at the address of the registrar's realm and mint
-- and of the owner, which was not in use, and the owner and the payer sign.
pub record IsAccepted (rt : Runtime) (ctx : CreateVoterWeightRecord) (owner : Pubkey)
    (accounts : Accounts) (p : Registrar × VoterWeightRecord × Accounts) : Type 0 where
  pub registrar_held : Holds rt.registrar accounts ctx.registrar.key p.0
  pub registrar_address :
      ctx.registrar.key ≡ address rt (registrar_seeds p.0.realm p.0.governing_token_mint)
  pub zeroed : p.1 ≡ zero_voter_weight_record
  pub created : Created ctx.voter_weight_record.key voter_weight_record_space accounts p.2
  pub at_address :
      ctx.voter_weight_record.key
      ≡ address rt (voter_weight_record_seeds p.0.realm p.0.governing_token_mint owner)
  pub signed : ctx.governing_token_owner_signer.is_signer ≡ true
  pub paid : ctx.payer.is_signer ≡ true

pub try_accounts_effect :
    {rt : Runtime} (ctx : CreateVoterWeightRecord) (owner : Pubkey) (accounts : Accounts)
    (p : Registrar × VoterWeightRecord × Accounts)
    → IsRuntime rt
    → try_accounts rt ctx owner accounts ≡ ok p
    → IsAccepted rt ctx owner accounts p
unfolding try_accounts
try_accounts_effect {rt} ctx owner accounts p laws e =
    >>=-inv (load rt rt.registrar accounts ctx.registrar) e λ r loaded e₁.
      let seeds = voter_weight_record_seeds r.realm r.governing_token_mint owner in
      require-inv ctx.governing_token_owner_signer.is_signer _ e₁ λ signed e₂.
        require-inv ctx.payer.is_signer _ e₂ λ paid e₃.
          >>=-inv (system_program accounts ctx.system_program) e₃ λ _ _ e₄.
            >>=-inv
              (init rt (voter_weight_record rt) ctx.voter_weight_record seeds ctx.payer
                voter_weight_record_space accounts)
              e₄
              λ q initialised e₅.
                let (at_address, zeroed, _, created) =
                  init_effect laws ctx.voter_weight_record seeds ctx.payer accounts q.0 q.1
                    (wrapper-IsAccountType laws.voter_weight_record_borsh) initialised in
                require-inv
                  (ctx.registrar.key == address rt (registrar_seeds r.realm r.governing_token_mint))
                  _ e₅
                  λ registrar_address e₆. require-inv ctx.payer.is_writable _ e₆ λ _ e₇.
                    subst (IsAccepted rt ctx owner accounts) (ok_injective e₇) (record {
                      registrar_held =
                          (load_iff laws rt.registrar accounts ctx.registrar r).0 loaded;
                      registrar_address = (==_iff ctx.registrar.key _).0 registrar_address;
                      zeroed = zeroed;
                      created = created;
                      at_address = at_address;
                      signed = signed;
                      paid = paid;
                    })

-- The record that is made: no weight, and expired at slot 0.
module _ (rt : Runtime) (registrar : Registrar) (owner : Pubkey) where
  abbrev pub born_expired : VoterWeightRecord
  born_expired = record {
    account_discriminator = rt.voter_weight_record_discriminator;
    realm = registrar.realm;
    governing_token_mint = registrar.governing_token_mint;
    governing_token_owner = owner;
    voter_weight = 0;
    voter_weight_expiry = some 0;
    weight_action = none;
    weight_action_target = none;
    reserved = replicate 8 0;
  }

  pub born_expired-IsVoterWeightRecord :
      length rt.voter_weight_record_discriminator ≡ 8
      → Registrar.IsValid registrar
      → IsPubkey owner
      → IsVoterWeightRecord born_expired
  born_expired-IsVoterWeightRecord eight valid key = record {
    discriminator_8 = eight;
    realm_key = valid.realm_key;
    mint_key = valid.mint_key;
    owner_key = key;
    weight_u64 = omega arith;
    expiry_u64 = omega arith;
    target_key = tt;
    reserved_8 = refl;
  }

-- What a successful creation has done.
pub record IsBorn (rt : Runtime) (ctx : CreateVoterWeightRecord) (owner : Pubkey) (bank : Bank)
    (registrar : Registrar) (after : Bank) : Type 0 where
  pub zeroed : VoterWeightRecord
  pub created : Accounts
  pub accepted : IsAccepted rt ctx owner bank.accounts (registrar, zeroed, created)
  pub owner_signed : ctx.governing_token_owner_signer.key ≡ owner
  pub opened :
      Opened
        (voter_weight_record rt)
        ctx.voter_weight_record.key
        (born_expired rt registrar owner)
        voter_weight_record_space
        bank.accounts
        after.accounts

-- On a runtime that behaves as documented, with a valid registrar in its account and an owner of 32
-- bytes, a `create_voter_weight_record` that succeeds was signed by the owner and the payer, under
-- a registrar at its address. It has opened the owner's record of the registrar's realm and mint,
-- with no weight and expired, at the derived address, not in use before, and no other account's
-- owner or data has changed.
pub create_voter_weight_record_opens :
    {rt : Runtime} (ctx : CreateVoterWeightRecord) (owner : Pubkey) (bank : Bank)
    (registrar : Registrar) (after : Bank)
    → IsRuntime rt
    → Holds rt.registrar bank.accounts ctx.registrar.key registrar
    → Registrar.IsValid registrar
    → IsPubkey owner
    → execute rt ctx owner bank ≡ ok after
    → IsBorn rt ctx owner bank registrar after
unfolding execute create_voter_weight_record
create_voter_weight_record_opens {rt} ctx owner bank registrar after laws held valid key e =
    >>=-inv (try_accounts rt ctx owner bank.accounts) e λ p loaded e₁.
      let accepted = try_accounts_effect ctx owner bank.accounts p laws loaded in
      let same : p.0 ≡ registrar = ok_injective (sym accepted.registrar_held.reads ∙ held.reads) in
      >>=-inv (create_voter_weight_record rt ctx p.0 p.1 owner) e₁ λ made did_make e₂.
        require-inv (ctx.governing_token_owner_signer.key == owner) _ did_make λ owner_signed value.
          let born : made ≡ born_expired rt registrar owner =
            rw (← ok_injective value, accepted.zeroed, same) in
          record {
            zeroed = p.1;
            created = p.2;
            accepted =
                subst (λ r. IsAccepted rt ctx owner bank.accounts (r, p.1, p.2)) same accepted;
            owner_signed = (==_iff ctx.governing_token_owner_signer.key owner).0 owner_signed;
            opened = Created-Written accepted.created (
                exit_writes (wrapper-IsAccountType laws.voter_weight_record_borsh)
                  ctx.voter_weight_record (born_expired rt registrar owner) p.2
                  (born_expired-IsVoterWeightRecord rt registrar owner laws.discriminator_8 valid
                    key)
                  (Created-room accepted.created) bank after (rw born at e₂));
          }
