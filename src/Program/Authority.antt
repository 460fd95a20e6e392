-- ===== src/Program/Authority.antt =====
-- Who can change which account of the program.
use entros_governance_plugin.Base.{◌≡◌, ◌≢◌, true}
use entros_governance_plugin.Error.{ok}
use entros_governance_plugin.Solana.{Pubkey, Accounts, Bank, AccountMeta}
use entros_governance_plugin.Addin
use entros_governance_plugin.State.Registrar.{Registrar, len}
use entros_governance_plugin.Runtime.{Runtime}
use entros_governance_plugin.Runtime.Laws.{IsRuntime, SameData, Created}
use entros_governance_plugin.Governance.{voter_weight_record, max_voter_weight_record_space}
use entros_governance_plugin.Instructions.Attributes.Access.{Holds, HasAuthority}
use entros_governance_plugin.Instructions.CreateRegistrar.Effect.{create_registrar_opens}
use entros_governance_plugin.Instructions.UpdateRegistrar.Effect.{update_registrar_writes}
use entros_governance_plugin.Instructions.CloseRegistrar.Effect.{close_registrar_closes}
use entros_governance_plugin.Instructions.CreateVoterWeightRecord.Effect.{
  create_voter_weight_record_opens,
}
use entros_governance_plugin.Instructions.UpdateVoterWeightRecord.Grant.{
  update_grants, update_for_action_grants,
}
use entros_governance_plugin.Instructions.CloseVoterWeightRecord.Effect.{
  close_voter_weight_record_closes,
}
use entros_governance_plugin.Instructions.CreateMaxVoterWeightRecord.Effect.{
  create_max_voter_weight_record_opens,
}
use entros_governance_plugin.Instructions.UpdateMaxVoterWeightRecord.Effect.{
  update_max_voter_weight_record_writes,
}
use entros_governance_plugin.Program.{
  Instruction, create_registrar, update_registrar, create_voter_weight_record,
  update_voter_weight_record, update_voter_weight_record_for_action, close_registrar,
  close_voter_weight_record, create_max_voter_weight_record, update_max_voter_weight_record,
  process,
}
use entros_governance_plugin.Program.Calls.{IsCall}
use entros_governance_plugin.Program.Sound.Writing.{same_data}

-- The account that an instruction is about.
abbrev pub target : Instruction → Pubkey
target (create_registrar ctx _ _) = ctx.registrar.key
target (update_registrar ctx _ _) = ctx.registrar.key
target (create_voter_weight_record ctx _) = ctx.voter_weight_record.key
target (update_voter_weight_record ctx) = ctx.voter_weight_record.key
target (update_voter_weight_record_for_action ctx _ _) = ctx.voter_weight_record.key
target (close_registrar ctx) = ctx.registrar.key
target (close_voter_weight_record ctx) = ctx.voter_weight_record.key
target (create_max_voter_weight_record ctx) = ctx.max_voter_weight_record.key
target (update_max_voter_weight_record ctx _) = ctx.max_voter_weight_record.key

-- The authority of a realm signs, as the governance program of the registrar says when the accounts
-- are `seen`.
pub record IsByAuthority (rt : Runtime) (registrar realm authority : AccountMeta)
    (accounts seen : Accounts) : Type 0 where
  pub held_registrar : Registrar
  pub held : Holds rt.registrar accounts registrar.key held_registrar
  pub signed : authority.is_signer ≡ true
  pub same_realm : realm.key ≡ held_registrar.realm
  pub has_authority :
      HasAuthority rt held_registrar.governance_program_id realm held_registrar.governing_token_mint
        authority.key seen

-- The owner of a record signs.
pub record IsByVoter (rt : Runtime) (value voter : AccountMeta) (accounts : Accounts) : Type 0 where
  pub held_record : Addin.VoterWeightRecord
  pub held : Holds (voter_weight_record rt) accounts value.key held_record
  pub signed : voter.is_signer ≡ true
  pub owns : held_record.governing_token_owner ≡ voter.key

abbrev pub IsAuthorised : Runtime → Instruction → Accounts → Type 0
IsAuthorised rt (create_registrar ctx _ _) accounts =
    (ctx.realm_authority.is_signer ≡ true)
    × ((created : Accounts) × Created ctx.registrar.key len accounts created
        × HasAuthority rt ctx.governance_program_id.key ctx.realm ctx.governing_token_mint.key
            ctx.realm_authority.key created
        × ((created ctx.realm.key).owner ≡ ctx.governance_program_id.key))
IsAuthorised rt (update_registrar ctx _ _) accounts =
    IsByAuthority rt ctx.registrar ctx.realm ctx.realm_authority accounts accounts
IsAuthorised rt (create_voter_weight_record ctx owner) accounts =
    (ctx.governing_token_owner_signer.is_signer ≡ true)
    × (ctx.governing_token_owner_signer.key ≡ owner)
IsAuthorised rt (update_voter_weight_record ctx) accounts =
    IsByVoter rt ctx.voter_weight_record ctx.voter_authority accounts
IsAuthorised rt (update_voter_weight_record_for_action ctx _ _) accounts =
    IsByVoter rt ctx.voter_weight_record ctx.voter_authority accounts
IsAuthorised rt (close_registrar ctx) accounts =
    IsByAuthority rt ctx.registrar ctx.realm ctx.realm_authority accounts accounts
IsAuthorised rt (close_voter_weight_record ctx) accounts =
    IsByVoter rt ctx.voter_weight_record ctx.voter_authority accounts
IsAuthorised rt (create_max_voter_weight_record ctx) accounts =
    (created : Accounts) × Created ctx.max_voter_weight_record.key max_voter_weight_record_space
      accounts created
    × IsByAuthority rt ctx.registrar ctx.realm ctx.realm_authority accounts created
IsAuthorised rt (update_max_voter_weight_record ctx _) accounts =
    IsByAuthority rt ctx.registrar ctx.realm ctx.realm_authority accounts accounts

-- On a runtime that behaves as documented, an instruction that succeeds on sound accounts of the
-- kinds that it takes, with numbers within their types and, for an update of a voter's record, a
-- clock that is not before 1970, was signed by the right party: the authority of the realm for a
-- registrar or a max voter weight record, as the governance program says, and the owner for a
-- voter's record. No account other than the one that the instruction is about has a changed owner
-- or changed data.
pub process-IsAuthorised :
    {rt : Runtime} (ix : Instruction) (bank after : Bank)
    → IsRuntime rt
    → IsCall rt ix bank
    → process rt ix bank ≡ ok after
    → IsAuthorised rt ix bank.accounts
      × ((key : Pubkey) → key ≢ target ix → SameData (after.accounts key) (bank.accounts key))
unfolding process
process-IsAuthorised (create_registrar ctx min_trust_score max_verification_age) bank after laws
      typed e =
    let c =
      create_registrar_opens ctx bank min_trust_score max_verification_age after laws typed e in
    (
      (c.accepted.signed, (c.created, c.accepted.created, c.authorized, c.accepted.of_program)),
      c.opened.others,
    )
process-IsAuthorised (update_registrar ctx min_trust_score max_verification_age) bank after laws
      ((r, h), score, age) e =
    let (accepted, authorized, _, written) =
      update_registrar_writes laws ctx bank r h.held h.valid h.room min_trust_score
        max_verification_age after score age e in
    (
      record {
        held_registrar = r;
        held = h.held;
        signed = accepted.signed;
        same_realm = accepted.same_realm;
        has_authority = authorized;
      },
      λ k other. same_data (written.others k other),
    )
process-IsAuthorised (create_voter_weight_record ctx owner) bank after laws ((r, h), key) e =
    let c = create_voter_weight_record_opens ctx owner bank r after laws h.held h.valid key e in
    ((c.accepted.signed, c.owner_signed), c.opened.others)
process-IsAuthorised (update_voter_weight_record ctx) bank after laws u e =
    let (value, h) = u.at_record in
    let g =
      update_grants laws ctx bank u.registrar value u.at_registrar.held h.held u.machine h.valid
        h.room after e in
    (
      record {
        held_record = value;
        held = h.held;
        signed = g.accepted.signed;
        owns = g.eligible.identified.owns;
      },
      λ k other. same_data (g.written.others k other),
    )
process-IsAuthorised (update_voter_weight_record_for_action ctx action action_target) bank after
      laws (u, key) e =
    let (value, h) = u.at_record in
    let (_, (_, _, g)) =
      update_for_action_grants laws ctx bank u.registrar value u.at_registrar.held h.held u.machine
        h.valid h.room action action_target after key e in
    (
      record {
        held_record = value;
        held = h.held;
        signed = g.accepted.signed;
        owns = g.eligible.identified.owns;
      },
      λ k other. same_data (g.written.others k other),
    )
process-IsAuthorised (close_registrar ctx) bank after laws (r, h) e =
    let (accepted, authorized, c) = close_registrar_closes ctx bank r after laws h.held e in
    (
      record {
        held_registrar = r;
        held = h.held;
        signed = accepted.signed;
        same_realm = accepted.same_realm;
        has_authority = authorized;
      },
      c.others,
    )
process-IsAuthorised (close_voter_weight_record ctx) bank after laws (value, h) e =
    let (accepted, owns, c) = close_voter_weight_record_closes ctx bank value after laws h.held e in
    (record { held_record = value; held = h.held; signed = accepted.signed; owns = owns }, c.others)
process-IsAuthorised (create_max_voter_weight_record ctx) bank after laws (r, h) e =
    let c = create_max_voter_weight_record_opens ctx bank r after laws h.held h.valid e in
    (
      (
        c.created,
        c.accepted.created,
        record {
          held_registrar = r;
          held = h.held;
          signed = c.accepted.signed;
          same_realm = c.accepted.same_realm;
          has_authority = c.authorized;
        },
      ),
      c.opened.others,
    )
process-IsAuthorised (update_max_voter_weight_record ctx max_voter_weight) bank after laws
      ((r, hr), (m, h), weight) e =
    let (accepted, authorized, _, written) =
      update_max_voter_weight_record_writes laws ctx bank r m hr.held h.held h.valid h.room
        max_voter_weight after weight e in
    (
      record {
        held_registrar = r;
        held = hr.held;
        signed = accepted.signed;
        same_realm = accepted.realm_key;
        has_authority = authorized;
      },
      λ k other. same_data (written.others k other),
    )
