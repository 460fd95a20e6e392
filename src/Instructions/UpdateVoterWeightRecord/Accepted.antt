-- ===== src/Instructions/UpdateVoterWeightRecord/Accepted.antt =====
-- The account checks of the two updates.
use entros_governance_plugin.Base.{◌≡◌, ◌↔◌, subst, true, ◌==◌, ==_iff}
use entros_governance_plugin.Error.{ok, >>=-inv, require-inv, ok_injective}
use entros_governance_plugin.Solana.{Accounts}
use entros_governance_plugin.Addin.{VoterWeightRecord}
use entros_governance_plugin.State.Registrar.{Registrar}
use entros_governance_plugin.Runtime.{Runtime}
use entros_governance_plugin.Runtime.Laws.{IsRuntime}
use entros_governance_plugin.Governance.{voter_weight_record}
use entros_governance_plugin.Instructions.Attributes.{address, registrar_seeds, load}
use entros_governance_plugin.Instructions.Attributes.Access.{Holds, load_iff}
use entros_governance_plugin.Instructions.UpdateVoterWeightRecord.{
  UpdateVoterWeightRecord, try_accounts,
}

-- The accounts of an update are in order: the registrar is at its address, the record is of its
-- realm and mint and can be written, and the voter signs.
pub record IsAccepted (rt : Runtime) (ctx : UpdateVoterWeightRecord) (accounts : Accounts)
    (registrar : Registrar) (value : VoterWeightRecord) : Type 0 where
  pub registrar_held : Holds rt.registrar accounts ctx.registrar.key registrar
  pub record_held : Holds (voter_weight_record rt) accounts ctx.voter_weight_record.key value
  pub signed : ctx.voter_authority.is_signer ≡ true
  pub at_address :
      ctx.registrar.key
      ≡ address rt (registrar_seeds registrar.realm registrar.governing_token_mint)
  pub writable : ctx.voter_weight_record.is_writable ≡ true
  pub same_realm : value.realm ≡ registrar.realm
  pub same_mint : value.governing_token_mint ≡ registrar.governing_token_mint

pub try_accounts_iff :
    {rt : Runtime} (ctx : UpdateVoterWeightRecord) (accounts : Accounts) (registrar : Registrar)
    (value : VoterWeightRecord)
    → IsRuntime rt
    → (try_accounts rt ctx accounts ≡ ok (registrar, value))
      ↔ IsAccepted rt ctx accounts registrar value
unfolding try_accounts
try_accounts_iff {rt} ctx accounts registrar value laws = (
  λ e. >>=-inv (load rt rt.registrar accounts ctx.registrar) e λ r loaded_r e₁.
      >>=-inv (load rt (voter_weight_record rt) accounts ctx.voter_weight_record) e₁
        λ v loaded_v e₂. require-inv ctx.voter_authority.is_signer _ e₂ λ signed e₃.
          require-inv
            (ctx.registrar.key == address rt (registrar_seeds r.realm r.governing_token_mint)) _ e₃
            λ at_address e₄. require-inv ctx.voter_weight_record.is_writable _ e₄ λ writable e₅.
              require-inv (v.realm == r.realm) _ e₅ λ same_realm e₆.
                require-inv (v.governing_token_mint == r.governing_token_mint) _ e₆ λ same_mint e₇.
                  subst (λ (p : Registrar × VoterWeightRecord). IsAccepted rt ctx accounts p.0 p.1)
                    (ok_injective e₇)
                    (record {
                      registrar_held =
                          (load_iff laws rt.registrar accounts ctx.registrar r).0 loaded_r;
                      record_held =
                          (load_iff laws (voter_weight_record rt) accounts ctx.voter_weight_record
                              v).0
                            loaded_v;
                      signed = signed;
                      at_address = (==_iff ctx.registrar.key _).0 at_address;
                      writable = writable;
                      same_realm = (==_iff v.realm r.realm).0 same_realm;
                      same_mint =
                          (==_iff v.governing_token_mint r.governing_token_mint).0 same_mint;
                    }),
  λ h. rw (
    (load_iff laws rt.registrar accounts ctx.registrar registrar).1 h.registrar_held,
    (load_iff laws (voter_weight_record rt) accounts ctx.voter_weight_record value).1 h.record_held,
    h.signed,
    (==_iff ctx.registrar.key _).1 h.at_address,
    h.writable,
    (==_iff value.realm registrar.realm).1 h.same_realm,
    (==_iff value.governing_token_mint registrar.governing_token_mint).1 h.same_mint,
  ),
)
