-- ===== src/Instructions/CloseRegistrar/Effect.antt =====
-- What a successful `close_registrar` has checked and done.
use entros_governance_plugin.Base.{◌≡◌, ◌≢◌, sym, subst, ◌∙◌, true, not, ◌==◌, ==_iff, not_==_ne}
use entros_governance_plugin.Error.{ok, >>=-inv, >>=-at, require-inv, ok_injective}
use entros_governance_plugin.Solana.{Accounts, Bank}
use entros_governance_plugin.State.Registrar.{Registrar}
use entros_governance_plugin.Runtime.{Runtime}
use entros_governance_plugin.Runtime.Laws.{IsRuntime, Closed}
use entros_governance_plugin.Instructions.Attributes.{
  address, registrar_seeds, load, require_realm_authority,
}
use entros_governance_plugin.Instructions.Attributes.Access.{
  Holds, HasAuthority, load_iff, require_realm_authority_iff,
}
use entros_governance_plugin.Instructions.CloseRegistrar.{
  CloseRegistrar, try_accounts, close_registrar, execute,
}

-- The registrar is at its address, the authority of its realm signs, and the destination is another
-- account.
pub record IsAccepted (rt : Runtime) (ctx : CloseRegistrar) (accounts : Accounts)
    (registrar : Registrar) : Type 0 where
  pub registrar_held : Holds rt.registrar accounts ctx.registrar.key registrar
  pub signed : ctx.realm_authority.is_signer ≡ true
  pub at_address :
      ctx.registrar.key
      ≡ address rt (registrar_seeds registrar.realm registrar.governing_token_mint)
  pub writable : ctx.registrar.is_writable ≡ true
  pub elsewhere : ctx.registrar.key ≢ ctx.sol_destination.key
  pub same_realm : ctx.realm.key ≡ registrar.realm

pub try_accounts_effect :
    {rt : Runtime} (ctx : CloseRegistrar) (accounts : Accounts) (registrar : Registrar)
    → IsRuntime rt
    → try_accounts rt ctx accounts ≡ ok registrar
    → IsAccepted rt ctx accounts registrar
unfolding try_accounts
try_accounts_effect {rt} ctx accounts registrar laws e =
    >>=-inv (load rt rt.registrar accounts ctx.registrar) e λ r loaded e₁.
      require-inv ctx.realm_authority.is_signer _ e₁ λ signed e₂.
        require-inv
          (ctx.registrar.key == address rt (registrar_seeds r.realm r.governing_token_mint)) _ e₂
          λ at_address e₃. require-inv ctx.registrar.is_writable _ e₃ λ writable e₄.
            require-inv (not (ctx.registrar.key == ctx.sol_destination.key)) _ e₄ λ elsewhere e₅.
              require-inv (ctx.realm.key == r.realm) _ e₅ λ same_realm e₆.
                require-inv ctx.sol_destination.is_writable _ e₆ λ _ e₇.
                  subst (IsAccepted rt ctx accounts) (ok_injective e₇) (record {
                    registrar_held = (load_iff laws rt.registrar accounts ctx.registrar r).0 loaded;
                    signed = signed;
                    at_address = (==_iff ctx.registrar.key _).0 at_address;
                    writable = writable;
                    elsewhere = not_==_ne ctx.registrar.key ctx.sol_destination.key elsewhere;
                    same_realm = (==_iff ctx.realm.key r.realm).0 same_realm;
                  })

-- On a runtime that behaves as documented, with a registrar in its account, a `close_registrar`
-- that succeeds was signed by the authority of the registrar's realm, for a registrar at its
-- address. The registrar's account is no longer the program's and has no lamports, the destination
-- has them on top of its own, and no other account's owner or data has changed.
pub close_registrar_closes :
    {rt : Runtime} (ctx : CloseRegistrar) (bank : Bank) (registrar : Registrar) (after : Bank)
    → IsRuntime rt
    → Holds rt.registrar bank.accounts ctx.registrar.key registrar
    → execute rt ctx bank ≡ ok after
    → IsAccepted rt ctx bank.accounts registrar
      × HasAuthority rt registrar.governance_program_id ctx.realm registrar.governing_token_mint
          ctx.realm_authority.key bank.accounts
      × Closed ctx.registrar.key ctx.sol_destination.key bank.accounts after.accounts
unfolding execute close_registrar
close_registrar_closes {rt} ctx bank registrar after laws held e =
    let (loaded, e₁) = >>=-at (try_accounts rt ctx bank.accounts) _ registrar e λ r loaded_r.
      ok_injective (
        sym (try_accounts_effect ctx bank.accounts r laws loaded_r).registrar_held.reads
        ∙ held.reads) in
    let accepted = try_accounts_effect ctx bank.accounts registrar laws loaded in
    >>=-inv
      (require_realm_authority rt registrar.governance_program_id ctx.realm
        registrar.governing_token_mint ctx.realm_authority bank.accounts)
      e₁
      λ _ authorized done. (
        accepted,
        (require_realm_authority_iff laws registrar.governance_program_id ctx.realm
              registrar.governing_token_mint ctx.realm_authority bank.accounts).0
            authorized,
        subst
            (λ (b : Bank).
              Closed ctx.registrar.key ctx.sol_destination.key bank.accounts b.accounts)
            (ok_injective done)
            (laws.closed ctx.registrar.key ctx.sol_destination.key bank.accounts
              accepted.elsewhere),
      )
