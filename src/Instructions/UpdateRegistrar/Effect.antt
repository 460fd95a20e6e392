-- ===== src/Instructions/UpdateRegistrar/Effect.antt =====
-- What a successful `update_registrar` has checked and done.
use entros_governance_plugin.Base.{
  ℕ, ◌^◌, ◌≤◌, ◌<◌, ◌≡◌, sym, subst, ◌∙◌, true, length, ◌==◌, ==_iff, ℤ, pos, ltb_ℤ, ◌<ℤ◌, IsI64,
  arith,
}
use entros_governance_plugin.Error.{ok, >>=-inv, >>=-at, require-inv, ok_injective}
use entros_governance_plugin.Solana.{Accounts, Bank}
use entros_governance_plugin.State.Registrar
use entros_governance_plugin.State.Registrar.{Registrar, len}
use entros_governance_plugin.Runtime.{Runtime}
use entros_governance_plugin.Runtime.Laws.{IsRuntime}
use entros_governance_plugin.Instructions.Attributes.{
  address, registrar_seeds, load, require_realm_authority,
}
use entros_governance_plugin.Instructions.Attributes.Access.{
  Holds, Written, HasAuthority, load_iff, require_realm_authority_iff, exit_writes,
}
use entros_governance_plugin.Instructions.UpdateRegistrar.{
  UpdateRegistrar, try_accounts, update_registrar, execute,
}

-- The registrar is at its address, and the authority of its realm signs.
pub record IsAccepted (rt : Runtime) (ctx : UpdateRegistrar) (accounts : Accounts)
    (registrar : Registrar) : Type 0 where
  pub registrar_held : Holds rt.registrar accounts ctx.registrar.key registrar
  pub signed : ctx.realm_authority.is_signer ≡ true
  pub at_address :
      ctx.registrar.key
      ≡ address rt (registrar_seeds registrar.realm registrar.governing_token_mint)
  pub writable : ctx.registrar.is_writable ≡ true
  pub same_realm : ctx.realm.key ≡ registrar.realm

pub try_accounts_effect :
    {rt : Runtime} (ctx : UpdateRegistrar) (accounts : Accounts) (registrar : Registrar)
    → IsRuntime rt
    → try_accounts rt ctx accounts ≡ ok registrar
    → IsAccepted rt ctx accounts registrar
unfolding try_accounts
try_accounts_effect {rt} ctx accounts registrar laws e =
    >>=-inv (load rt rt.registrar accounts ctx.registrar) e λ r loaded e₁.
      require-inv ctx.realm_authority.is_signer _ e₁ λ signed e₂.
        require-inv
          (ctx.registrar.key == address rt (registrar_seeds r.realm r.governing_token_mint)) _ e₂
          λ at_address e₃. require-inv ctx.registrar.is_writable _ e₃ λ writable e₄.
            require-inv (ctx.realm.key == r.realm) _ e₄ λ same_realm e₅.
              subst (IsAccepted rt ctx accounts) (ok_injective e₅) (record {
                registrar_held = (load_iff laws rt.registrar accounts ctx.registrar r).0 loaded;
                signed = signed;
                at_address = (==_iff ctx.registrar.key _).0 at_address;
                writable = writable;
                same_realm = (==_iff ctx.realm.key r.realm).0 same_realm;
              })

module _ {rt : Runtime} (laws : IsRuntime rt) (ctx : UpdateRegistrar) (bank : Bank)
    (registrar : Registrar)
    (registrar_held : Holds rt.registrar bank.accounts ctx.registrar.key registrar)
    (valid : Registrar.IsValid registrar)
    (room : len ≤ length (bank.accounts ctx.registrar.key).contents) where
  same : (r : Registrar) → try_accounts rt ctx bank.accounts ≡ ok r → r ≡ registrar
  same r e =
      let held = (try_accounts_effect ctx bank.accounts r laws e).registrar_held in
      ok_injective (sym held.reads ∙ registrar_held.reads)

  pub parameters-IsValid :
      (min_trust_score : ℕ) (max_verification_age : ℤ)
      → min_trust_score < 2 ^ 16
      → IsI64 max_verification_age
      → Registrar.IsValid (record registrar {
        min_trust_score = min_trust_score;
        max_verification_age = max_verification_age;
      })
  parameters-IsValid min_trust_score max_verification_age score age = record {
    program_key = valid.program_key;
    realm_key = valid.realm_key;
    mint_key = valid.mint_key;
    score_u16 = score;
    age_i64 = age;
    reserved_64 = valid.reserved_64;
  }

  -- On a runtime that behaves as documented, with a valid registrar with room in its account and
  -- numbers within their types, an `update_registrar` that succeeds was signed by the authority of
  -- the registrar's realm and had a positive age. The registrar reads as before but for the two
  -- parameters, and no other account has changed.
  pub update_registrar_writes :
      (min_trust_score : ℕ) (max_verification_age : ℤ) (after : Bank)
      → min_trust_score < 2 ^ 16
      → IsI64 max_verification_age
      → execute rt ctx min_trust_score max_verification_age bank ≡ ok after
      → IsAccepted rt ctx bank.accounts registrar
        × HasAuthority rt registrar.governance_program_id ctx.realm registrar.governing_token_mint
            ctx.realm_authority.key bank.accounts
        × (pos 0 <ℤ max_verification_age)
        × Written rt.registrar ctx.registrar.key
            (record registrar {
              min_trust_score = min_trust_score;
              max_verification_age = max_verification_age;
            })
            bank.accounts
            after.accounts
  unfolding execute update_registrar
  update_registrar_writes min_trust_score max_verification_age after score age e =
      let (loaded, e₁) = >>=-at (try_accounts rt ctx bank.accounts) _ registrar e same in
      let accepted = try_accounts_effect ctx bank.accounts registrar laws loaded in
      >>=-inv (update_registrar rt ctx bank.accounts registrar min_trust_score max_verification_age)
        e₁
        λ updated made e₂. require-inv (ltb_ℤ (pos 0) max_verification_age) _ made λ positive made₁.
          >>=-inv
            (require_realm_authority rt registrar.governance_program_id ctx.realm
              registrar.governing_token_mint ctx.realm_authority bank.accounts)
            made₁
            λ _ authorized value. (
              accepted,
              (require_realm_authority_iff laws registrar.governance_program_id ctx.realm
                    registrar.governing_token_mint ctx.realm_authority bank.accounts).0
                  authorized,
              ground arith,
              exit_writes laws.registrar_saved ctx.registrar _ bank.accounts
                  (parameters-IsValid min_trust_score max_verification_age score age) room bank
                  after (rw (ok_injective value) e₂),
            )
