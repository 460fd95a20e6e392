-- ===== src/Examples/Sound.antt =====
-- The ledger of `Ledger` is sound, and a voter can be enrolled from a ledger without accounts.
use entros_governance_plugin.Base.{
  ◌≢◌, ◌≡◌, refl, subst, inl, inr, ==_cases, pos, arith, to_le_bytes, from_le_bytes, i64_of_pattern,
  pattern_of_i64,
}
use entros_governance_plugin.Solana.{Pubkey, Account, Accounts, set}
use entros_governance_plugin.State.Registrar.{len}
use entros_governance_plugin.Governance.{
  id, try_deserialize_unchecked, voter_weight_record_space, max_voter_weight_record_space,
}
use entros_governance_plugin.Instructions.Attributes.{
  load, registrar_seeds, voter_weight_record_seeds, max_voter_weight_record_seeds,
}
use entros_governance_plugin.Instructions.CreateRegistrar.Effect.{IsTyped}
use entros_governance_plugin.Instructions.UpdateVoterWeightRecord.Identity.{
  entros_anchor_program_id,
}
use entros_governance_plugin.Program.Slots.{IsRegistrarAt, IsRecordAt}
use entros_governance_plugin.Program.Calls.{IsUpdate}
use entros_governance_plugin.Layout.{
  read_registrar, read_voter_weight_record, read_max_voter_weight_record, serialize_registrar,
  serialize_voter_weight_record, serialize_max_voter_weight_record, try_deserialize_registrar,
  try_deserialize_registrar_unchecked,
}
use entros_governance_plugin.Layout.Readers.{
  read_bytes, read_uint, read_option, read_action, write_option, action_byte,
}
use entros_governance_plugin.Examples.Localnet.{localnet}
use entros_governance_plugin.Examples.Ledger.{
  registrar, record_of_voter, registrar_key, record_key, max_record_key, identity_key, accounts,
  bare_accounts, max_accounts, bank, create, update,
}
use entros_governance_plugin.Base.{sym, ap, ◌∙◌}
use entros_governance_plugin.Error.{ok}
use entros_governance_plugin.Program.{create_registrar, create_voter_weight_record, process}
use entros_governance_plugin.Program.Slots.{IsSound, Slot, registrar_slot, record_slot}
use entros_governance_plugin.Program.Kinds.{IsTagged}
use entros_governance_plugin.Program.Reachable.{IsHost, Reachable, genesis, call}
use entros_governance_plugin.Program.Unique.{IsBallot}
use entros_governance_plugin.Solana.{set_ne}
use entros_governance_plugin.Instructions.CreateVoterWeightRecord.Effect.{born_expired}
use entros_governance_plugin.Examples.Ledger.{
  held_by, registrar_contents, record_contents, identity_contents, newcomer, newcomer_record_key,
  join, bare_bank,
}
use entros_governance_plugin.Examples.Runs.{bank_of, created, created_ok}
use entros_governance_plugin.Examples.Enrolled.{
  enrolled, enrolled_ok, enrolled_record, enrolled_tagged, enrolled_owner,
}
use entros_governance_plugin.Examples.Facts.{
  registrar-Holds, registrar-IsValid, registrar-room, record-Holds, record-IsVoterWeightRecord,
  record-room, bank-IsMachine,
}

-- A key's account is of the program in none of the accounts that are set.
set_ne_id :
    (before : Accounts) (key : Pubkey) (a : Account)
    → ((k : Pubkey) → (before k).owner ≢ id)
    → a.owner ≢ id
    → (k : Pubkey) → (set before key a k).owner ≢ id
set_ne_id before key a old new k = elim (==_cases key k) [
  | inl (test, _) ↦ rw test new
  | inr (test, _) ↦ rw test (old k)
]

pub bare_accounts_ne_id : (k : Pubkey) → (bare_accounts k).owner ≢ id
unfolding bare_accounts id from_le_bytes
bare_accounts_ne_id =
    set_ne_id _ _ _
      (set_ne_id _ _ _ (set_ne_id _ _ _ (λ _. omega arith) (omega arith)) (omega arith))
      (omega arith)

pub create-IsTyped : IsTyped create 100 (pos 3600)
create-IsTyped = record {
  program_key = omega arith;
  realm_key = omega arith;
  mint_key = omega arith;
  score_u16 = omega arith;
  age_i64 = (omega arith, omega arith);
}

pub registrar-IsRegistrarAt : IsRegistrarAt localnet accounts registrar_key registrar
unfolding registrar_key
registrar-IsRegistrarAt = record {
  held = registrar-Holds;
  at_address = refl;
  valid = registrar-IsValid;
  room = registrar-room;
  positive = omega arith;
}

pub record-IsRecordAt : IsRecordAt localnet accounts record_key record_of_voter
unfolding record_key
record-IsRecordAt = record {
  held = record-Holds;
  at_address = refl;
  valid = record-IsVoterWeightRecord;
  room = record-room;
  weight = inl (refl, refl);
  scope = inl (refl, refl);
}

pub update-IsUpdate : IsUpdate localnet update bank
update-IsUpdate = record {
  registrar = registrar;
  at_registrar = registrar-IsRegistrarAt;
  at_record = (record_of_voter, record-IsRecordAt);
  machine = bank-IsMachine;
}

identity_foreign : (accounts identity_key).owner ≢ id
unfolding load accounts bare_accounts max_accounts registrar_key record_key max_record_key
    identity_key id entros_anchor_program_id voter_weight_record_space max_voter_weight_record_space
    len registrar_seeds voter_weight_record_seeds max_voter_weight_record_seeds from_le_bytes
    to_le_bytes try_deserialize_registrar try_deserialize_registrar_unchecked
    try_deserialize_unchecked read_registrar read_voter_weight_record read_max_voter_weight_record
    serialize_registrar serialize_voter_weight_record serialize_max_voter_weight_record read_bytes
    read_uint read_option read_action write_option action_byte i64_of_pattern pattern_of_i64
identity_foreign = omega arith

-- Every account but three is as it was before there was any of the program.
others_bare :
    (k : Pubkey)
    → k ≢ registrar_key
    → k ≢ record_key
    → k ≢ identity_key
    → accounts k ≡ bare_accounts k
unfolding accounts
others_bare k h₁ h₂ h₃ =
    let one = set bare_accounts registrar_key (held_by id registrar_contents) in
    let two = set one record_key (held_by id record_contents) in
    set_ne two identity_key k (held_by entros_anchor_program_id identity_contents) h₃
    ∙ set_ne one record_key k (held_by id record_contents) h₂
    ∙ set_ne bare_accounts registrar_key k (held_by id registrar_contents) h₁

pub accounts-IsSound : IsSound localnet accounts
accounts-IsSound k owned = elim (==_cases k registrar_key) [
  | inl (_, here) ↦
      subst (Slot localnet accounts) (sym here) (registrar_slot registrar registrar-IsRegistrarAt)
  | inr (_, h₁) ↦ elim (==_cases k record_key) [
    | inl (_, here) ↦
        subst (Slot localnet accounts) (sym here)
          (record_slot record_of_voter record-IsRecordAt refl)
    | inr (_, h₂) ↦ elim (==_cases k identity_key) [
      | inl (_, here) ↦ absurd (identity_foreign (subst (λ j. (accounts j).owner ≡ id) here owned))
      | inr (_, h₃) ↦ absurd (
          bare_accounts_ne_id k
            (sym (ap (λ (a : Account). a.owner) (others_bare k h₁ h₂ h₃)) ∙ owned))
    ]
  ]
]

pub bank-IsHost : IsHost bank
bank-IsHost = record {
  bytes = bank-IsMachine.bytes;
  clock_i64 = bank-IsMachine.clock_i64;
  slot_u64 = bank-IsMachine.slot_u64;
  clock_pos = bank-IsMachine.clock_pos;
}

pub record-IsTagged : IsTagged localnet.voter_weight_record_discriminator accounts record_key
unfolding load accounts bare_accounts max_accounts registrar_key record_key max_record_key
    identity_key id entros_anchor_program_id voter_weight_record_space max_voter_weight_record_space
    len registrar_seeds voter_weight_record_seeds max_voter_weight_record_seeds from_le_bytes
    to_le_bytes try_deserialize_registrar try_deserialize_registrar_unchecked
    try_deserialize_unchecked read_registrar read_voter_weight_record read_max_voter_weight_record
    serialize_registrar serialize_voter_weight_record serialize_max_voter_weight_record read_bytes
    read_uint read_option read_action write_option action_byte i64_of_pattern pattern_of_i64
record-IsTagged = refl

process-created :
    process localnet (create_registrar create 100 (pos 3600)) bare_bank ≡ ok (bank_of created)
unfolding process
process-created = created_ok

process-enrolled :
    process localnet (create_voter_weight_record join newcomer) (bank_of created)
    ≡ ok (bank_of enrolled)
unfolding process
process-enrolled = enrolled_ok

-- The registrar is created, and then the newcomer's record.
pub enrolled-Reachable : Reachable localnet (bank_of enrolled)
enrolled-Reachable =
    call (create_voter_weight_record join newcomer) (bank_of created) (bank_of enrolled)
      (call (create_registrar create 100 (pos 3600)) bare_bank (bank_of created)
        (genesis bare_bank bare_accounts_ne_id) create-IsTyped process-created)
      (omega arith) process-enrolled

pub enrolled-IsBallot :
    IsBallot localnet
      (bank_of enrolled).accounts
      newcomer_record_key
      (born_expired localnet registrar newcomer)
enrolled-IsBallot = record {
  tagged = enrolled_tagged;
  held = record { owned = enrolled_owner; reads = enrolled_record };
}
