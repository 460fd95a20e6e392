-- ===== src/Program/Sound/Writing.antt =====
-- What a write leaves of the other accounts, and of the one that is written.
use entros_governance_plugin.Base.{◌≡◌, ap, ◌∙◌}
use entros_governance_plugin.Solana.{Pubkey, Account, Accounts}
use entros_governance_plugin.Runtime.{AccountType}
use entros_governance_plugin.Runtime.Laws.{SameData}
use entros_governance_plugin.Instructions.Attributes.Access.{Holds, Written}

pub same_data : {a b : Account} → a ≡ b → SameData a b
same_data e = (ap (λ (a : Account). a.owner) e, ap (λ (a : Account). a.contents) e)

-- What is written into an account that the program owns is held there.
pub Written-Holds :
    {A : Type 0} {t : AccountType A} {key : Pubkey} {old new : A} {before after : Accounts}
    → Holds t before key old
    → Written t key new before after
    → Holds t after key new
Written-Holds h w = record { owned = w.kept_owner ∙ h.owned; reads = w.reads }
