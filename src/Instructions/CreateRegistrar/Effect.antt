-- ===== src/Instructions/CreateRegistrar/Effect.antt =====
-- What a successful `create_registrar` has checked and done.
use entros_governance_plugin.Base.{
  ℕ, ◌^◌, ◌<◌, ◌≡◌, refl, subst, true, replicate, ◌==◌, ==_iff, ℤ, pos, ltb_ℤ, ◌<ℤ◌, IsI64, arith,
}
use entros_governance_plugin.Error.{ok, >>=-inv, require-inv, ok_injective}
use entros_governance_plugin.Solana.{IsPubkey, Accounts, Bank}
use entros_governance_plugin.State.Registrar
use entros_governance_plugin.State.Registrar.{Registrar, len}
use entros_governance_plugin.Runtime.{Runtime}
use entros_governance_plugin.Runtime.Laws.{IsRuntime, Created, zero_registrar}
use entros_governance_plugin.Instructions.Attributes.{
  address, system_program, registrar_seeds, init, require_realm_authority,
}
use entros_governance_plugin.Instructions.Attributes.Access.{
  Opened, HasAuthority, Created-Written, Created-room, require_realm_authority_iff, init_effect,
  exit_writes,
}
use entros_governance_plugin.Instructions.CreateRegistrar.{
  CreateRegistrar, try_accounts, create_registrar, execute,
}

-- The registrar's address is the one of the realm and mint, and was not in use; the realm account is
-- owned by the named governance program; the authority and the payer sign. `created` is the ledger
-- with the new account.
pub record IsAccepted (rt : Runtime) (ctx : CreateRegistrar) (accounts : Accounts)
    (p : Registrar × Accounts) : Type 0 where
  pub zeroed : p.0 ≡ zero_registrar
  pub created : Created ctx.registrar.key len accounts p.1
  pub signed : ctx.realm_authority.is_signer ≡ true
  pub paid : ctx.payer.is_signer ≡ true
  pub at_address :
      ctx.registrar.key ≡ address rt (registrar_seeds ctx.realm.key ctx.governing_token_mint.key)
  pub executable : (p.1 ctx.governance_program_id.key).executable ≡ true
  pub of_program : (p.1 ctx.realm.key).owner ≡ ctx.governance_program_id.key

try_accounts_effect :
    {rt : Runtime} (ctx : CreateRegistrar) (accounts : Accounts) (p : Registrar × Accounts)
    → IsRuntime rt
    → try_accounts rt ctx accounts ≡ ok p
    → IsAccepted rt ctx accounts p
unfolding try_accounts
try_accounts_effect {rt} ctx accounts p laws e =
    let seeds = registrar_seeds ctx.realm.key ctx.governing_token_mint.key in
    require-inv ctx.realm_authority.is_signer _ e λ signed e₁.
      require-inv ctx.payer.is_signer _ e₁ λ paid e₂.
        >>=-inv (system_program accounts ctx.system_program) e₂ λ _ _ e₃.
          >>=-inv (init rt rt.registrar ctx.registrar seeds ctx.payer len accounts) e₃
            λ q initialised e₄.
              let (at_address, zeroed, _, created) =
                init_effect laws ctx.registrar seeds ctx.payer accounts q.0 q.1 laws.registrar_saved
                  initialised in
              require-inv (q.1 ctx.governance_program_id.key).executable _ e₄ λ executable e₅.
                require-inv ((q.1 ctx.realm.key).owner == ctx.governance_program_id.key) _ e₅
                  λ of_program e₆. require-inv ctx.payer.is_writable _ e₆ λ _ e₇.
                    subst (IsAccepted rt ctx accounts) (ok_injective e₇) (record {
                      zeroed = zeroed;
                      created = created;
                      signed = signed;
                      paid = paid;
                      at_address = at_address;
                      executable = executable;
                      of_program =
                          (==_iff (q.1 ctx.realm.key).owner ctx.governance_program_id.key).0
                            of_program;
                    })

-- The registrar that is configured.
abbrev pub configured : CreateRegistrar → ℕ → ℤ → Registrar
configured ctx min_trust_score max_verification_age = record {
  governance_program_id = ctx.governance_program_id.key;
  realm = ctx.realm.key;
  governing_token_mint = ctx.governing_token_mint.key;
  min_trust_score = min_trust_score;
  max_verification_age = max_verification_age;
  reserved = replicate 64 0;
}

-- Every number of the instruction is within its Rust type.
pub record IsTyped (ctx : CreateRegistrar) (min_trust_score : ℕ) (max_verification_age : ℤ)
    : Type 0 where
  pub program_key : IsPubkey ctx.governance_program_id.key
  pub realm_key : IsPubkey ctx.realm.key
  pub mint_key : IsPubkey ctx.governing_token_mint.key
  pub score_u16 : min_trust_score < 2 ^ 16
  pub age_i64 : IsI64 max_verification_age

pub configured-IsValid :
    (ctx : CreateRegistrar) (min_trust_score : ℕ) (max_verification_age : ℤ)
    → IsTyped ctx min_trust_score max_verification_age
    → Registrar.IsValid (configured ctx min_trust_score max_verification_age)
configured-IsValid ctx min_trust_score max_verification_age typed = record {
  program_key = typed.program_key;
  realm_key = typed.realm_key;
  mint_key = typed.mint_key;
  score_u16 = typed.score_u16;
  age_i64 = typed.age_i64;
  reserved_64 = refl;
}

-- What a successful creation has done.
pub record IsConfigured (rt : Runtime) (ctx : CreateRegistrar) (bank : Bank) (min_trust_score : ℕ)
    (max_verification_age : ℤ) (after : Bank) : Type 0 where
  pub zeroed : Registrar
  pub created : Accounts
  pub accepted : IsAccepted rt ctx bank.accounts (zeroed, created)
  pub authorized :
      HasAuthority rt ctx.governance_program_id.key ctx.realm ctx.governing_token_mint.key
        ctx.realm_authority.key created
  pub positive : pos 0 <ℤ max_verification_age
  pub opened :
      Opened rt.registrar ctx.registrar.key
        (configured ctx min_trust_score max_verification_age)
        len
        bank.accounts
        after.accounts

-- On a runtime that behaves as documented, for numbers within their types, a `create_registrar`
-- that succeeds was signed by the authority of the realm and by the payer, had a positive age, a
-- realm of the governance program and the registrar's derived address, not in use before. The
-- registrar has the given parameters in an account of its size, and no other account's owner or
-- data has changed.
pub create_registrar_opens :
    {rt : Runtime} (ctx : CreateRegistrar) (bank : Bank) (min_trust_score : ℕ)
    (max_verification_age : ℤ) (after : Bank)
    → IsRuntime rt
    → IsTyped ctx min_trust_score max_verification_age
    → execute rt ctx min_trust_score max_verification_age bank ≡ ok after
    → IsConfigured rt ctx bank min_trust_score max_verification_age after
unfolding execute create_registrar
create_registrar_opens {rt} ctx bank min_trust_score max_verification_age after laws typed e =
    >>=-inv (try_accounts rt ctx bank.accounts) e λ p loaded e₁.
      let accepted = try_accounts_effect ctx bank.accounts p laws loaded in
      >>=-inv (create_registrar rt ctx p.1 p.0 min_trust_score max_verification_age) e₁
        λ made did_make e₂.
          require-inv (ltb_ℤ (pos 0) max_verification_age) _ did_make λ positive made₁.
            >>=-inv
              (require_realm_authority rt ctx.governance_program_id.key ctx.realm
                ctx.governing_token_mint.key ctx.realm_authority p.1)
              made₁
              λ _ authorized value.
                let same : made ≡ configured ctx min_trust_score max_verification_age =
                  rw (← ok_injective value, accepted.zeroed) in
                record {
                  zeroed = p.0;
                  created = p.1;
                  accepted = accepted;
                  authorized =
                      (require_realm_authority_iff laws ctx.governance_program_id.key ctx.realm
                          ctx.governing_token_mint.key ctx.realm_authority p.1).0
                        authorized;
                  positive = ground arith;
                  opened = Created-Written accepted.created (
                      exit_writes laws.registrar_saved ctx.registrar
                        (configured ctx min_trust_score max_verification_age) p.1
                        (configured-IsValid ctx min_trust_score max_verification_age typed)
                        (Created-room accepted.created) bank after (rw same at e₂));
                }
