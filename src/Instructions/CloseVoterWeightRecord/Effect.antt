-- ===== src/Instructions/CloseVoterWeightRecord/Effect.antt =====
-- What a successful `close_voter_weight_record` has checked and done.
use entros_governance_plugin.Base.{◌≡◌, ◌≢◌, sym, subst, ◌∙◌, true, not, ◌==◌, ==_iff, not_==_ne}
use entros_governance_plugin.Error.{ok, >>=-inv, >>=-at, require-inv, ok_injective}
use entros_governance_plugin.Solana.{Accounts, Bank}
use entros_governance_plugin.Addin.{VoterWeightRecord}
use entros_governance_plugin.State.Registrar.{Registrar}
use entros_governance_plugin.Runtime.{Runtime}
use entros_governance_plugin.Runtime.Laws.{IsRuntime, Closed}
use entros_governance_plugin.Governance.{voter_weight_record}
use entros_governance_plugin.Instructions.Attributes.{address, registrar_seeds, load}
use entros_governance_plugin.Instructions.Attributes.Access.{Holds, load_iff}
use entros_governance_plugin.Instructions.CloseVoterWeightRecord.{
  CloseVoterWeightRecord, try_accounts, close_voter_weight_record, execute,
}

-- The record is of the realm and mint of a registrar at its address, the voter signs, and the
-- destination is another account.
pub record IsAccepted (rt : Runtime) (ctx : CloseVoterWeightRecord) (accounts : Accounts)
    (value : VoterWeightRecord) : Type 0 where
  pub registrar : Registrar
  pub registrar_held : Holds rt.registrar accounts ctx.registrar.key registrar
  pub record_held : Holds (voter_weight_record rt) accounts ctx.voter_weight_record.key value
  pub signed : ctx.voter_authority.is_signer ≡ true
  pub at_address :
      ctx.registrar.key
      ≡ address rt (registrar_seeds registrar.realm registrar.governing_token_mint)
  pub writable : ctx.voter_weight_record.is_writable ≡ true
  pub same_realm : value.realm ≡ registrar.realm
  pub same_mint : value.governing_token_mint ≡ registrar.governing_token_mint
  pub elsewhere : ctx.voter_weight_record.key ≢ ctx.sol_destination.key

pub try_accounts_effect :
    {rt : Runtime} (ctx : CloseVoterWeightRecord) (accounts : Accounts) (value : VoterWeightRecord)
    → IsRuntime rt
    → try_accounts rt ctx accounts ≡ ok value
    → IsAccepted rt ctx accounts value
unfolding try_accounts
try_accounts_effect {rt} ctx accounts value laws e =
    >>=-inv (load rt rt.registrar accounts ctx.registrar) e λ r loaded_r e₁.
      >>=-inv (load rt (voter_weight_record rt) accounts ctx.voter_weight_record) e₁
        λ v loaded_v e₂. require-inv ctx.voter_authority.is_signer _ e₂ λ signed e₃.
          require-inv
            (ctx.registrar.key == address rt (registrar_seeds r.realm r.governing_token_mint)) _ e₃
            λ at_address e₄. require-inv ctx.voter_weight_record.is_writable _ e₄ λ writable e₅.
              require-inv (v.realm == r.realm) _ e₅ λ same_realm e₆.
                require-inv (v.governing_token_mint == r.governing_token_mint) _ e₆ λ same_mint e₇.
                  require-inv (not (ctx.voter_weight_record.key == ctx.sol_destination.key)) _ e₇
                    λ elsewhere e₈. require-inv ctx.sol_destination.is_writable _ e₈ λ _ e₉.
                      subst (IsAccepted rt ctx accounts) (ok_injective e₉) (record {
                        registrar = r;
                        registrar_held =
                            (load_iff laws rt.registrar accounts ctx.registrar r).0 loaded_r;
                        record_held =
                            (load_iff laws (voter_weight_record rt) accounts ctx.voter_weight_record
                                v).0
                              loaded_v;
                        signed = signed;
                        at_address = (==_iff ctx.registrar.key _).0 at_address;
                        writable = writable;
                        same_realm = (==_iff v.realm r.realm).0 same_realm;
                        same_mint =
                            (==_iff v.governing_token_mint r.governing_token_mint).0 same_mint;
                        elsewhere =
                            not_==_ne ctx.voter_weight_record.key ctx.sol_destination.key elsewhere;
                      })

-- On a runtime that behaves as documented, with a record in its account, a
-- `close_voter_weight_record` that succeeds was signed by the record's owner, for a registrar at
-- its address with the record's realm and mint. The record's account is no longer the program's and
-- has no lamports, the destination has them on top of its own, and no other account's owner or data
-- has changed.
pub close_voter_weight_record_closes :
    {rt : Runtime} (ctx : CloseVoterWeightRecord) (bank : Bank) (value : VoterWeightRecord)
    (after : Bank)
    → IsRuntime rt
    → Holds (voter_weight_record rt) bank.accounts ctx.voter_weight_record.key value
    → execute rt ctx bank ≡ ok after
    → IsAccepted rt ctx bank.accounts value
      × (value.governing_token_owner ≡ ctx.voter_authority.key)
      × Closed ctx.voter_weight_record.key ctx.sol_destination.key bank.accounts after.accounts
unfolding execute close_voter_weight_record
close_voter_weight_record_closes {rt} ctx bank value after laws held e =
    let (loaded, e₁) = >>=-at (try_accounts rt ctx bank.accounts) _ value e λ v loaded_v.
      ok_injective (
        sym (try_accounts_effect ctx bank.accounts v laws loaded_v).record_held.reads
        ∙ held.reads) in
    let accepted = try_accounts_effect ctx bank.accounts value laws loaded in
    require-inv (value.governing_token_owner == ctx.voter_authority.key) _ e₁ λ owner done. (
      accepted,
      (==_iff value.governing_token_owner ctx.voter_authority.key).0 owner,
      subst
          (λ (b : Bank).
            Closed ctx.voter_weight_record.key ctx.sol_destination.key bank.accounts b.accounts)
          (ok_injective done)
          (laws.closed ctx.voter_weight_record.key ctx.sol_destination.key bank.accounts
            accepted.elsewhere),
    )
