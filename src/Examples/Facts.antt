-- ===== src/Examples/Facts.antt =====
-- What the theorems take for granted, on the ledger of `Ledger`.
use entros_governance_plugin.Base.{
  ◌≤◌, ◌<◌, ◌≡◌, refl, subst, inl, inr, true, AllBytes, all_bytes, all_bytes-AllBytes, length,
  ==_cases, ◌^◌, pos, ◌≤ℤ◌, IsI64, arith, to_le_bytes, from_le_bytes, i64_of_pattern,
  pattern_of_i64,
}
use entros_governance_plugin.Error.{ok_injective}
use entros_governance_plugin.Solana.{Pubkey, Account, Accounts, Clock, set}
use entros_governance_plugin.State.Registrar
use entros_governance_plugin.State.Registrar.{len}
use entros_governance_plugin.Runtime.Laws.{IsVoterWeightRecord, IsMaxVoterWeightRecord}
use entros_governance_plugin.Governance.{
  id, voter_weight_record, max_voter_weight_record, try_deserialize_unchecked,
  voter_weight_record_space, max_voter_weight_record_space,
}
use entros_governance_plugin.Instructions.Attributes.{
  load, registrar_seeds, voter_weight_record_seeds, max_voter_weight_record_seeds,
}
use entros_governance_plugin.Instructions.Attributes.Access.{Holds}
use entros_governance_plugin.Instructions.UpdateVoterWeightRecord.Identity.{
  entros_anchor_program_id,
}
use entros_governance_plugin.Instructions.UpdateVoterWeightRecord.Eligibility.{IsMachine}
use entros_governance_plugin.Layout.{
  read_registrar, read_voter_weight_record, read_max_voter_weight_record, serialize_registrar,
  serialize_voter_weight_record, serialize_max_voter_weight_record, try_deserialize_registrar,
  try_deserialize_registrar_unchecked,
}
use entros_governance_plugin.Layout.Readers.{
  read_bytes, read_uint, read_option, read_action, write_option, action_byte,
}
use entros_governance_plugin.Examples.Localnet.{localnet}
use entros_governance_plugin.Examples.Ledger.{
  registrar, record_of_voter, max_record, registrar_key, record_key, max_record_key, identity_key,
  accounts, bare_accounts, max_accounts, bank,
}

pub registrar-Holds : Holds localnet.registrar accounts registrar_key registrar
unfolding load accounts bare_accounts max_accounts registrar_key record_key max_record_key
    identity_key id entros_anchor_program_id voter_weight_record_space max_voter_weight_record_space
    len registrar_seeds voter_weight_record_seeds max_voter_weight_record_seeds from_le_bytes
    to_le_bytes try_deserialize_registrar try_deserialize_registrar_unchecked
    try_deserialize_unchecked read_registrar read_voter_weight_record read_max_voter_weight_record
    serialize_registrar serialize_voter_weight_record serialize_max_voter_weight_record read_bytes
    read_uint read_option read_action write_option action_byte i64_of_pattern pattern_of_i64
registrar-Holds = record { owned = refl; reads = refl }

pub registrar-Holds_with_max : Holds localnet.registrar max_accounts registrar_key registrar
unfolding load accounts bare_accounts max_accounts registrar_key record_key max_record_key
    identity_key id entros_anchor_program_id voter_weight_record_space max_voter_weight_record_space
    len registrar_seeds voter_weight_record_seeds max_voter_weight_record_seeds from_le_bytes
    to_le_bytes try_deserialize_registrar try_deserialize_registrar_unchecked
    try_deserialize_unchecked read_registrar read_voter_weight_record read_max_voter_weight_record
    serialize_registrar serialize_voter_weight_record serialize_max_voter_weight_record read_bytes
    read_uint read_option read_action write_option action_byte i64_of_pattern pattern_of_i64
registrar-Holds_with_max = record { owned = refl; reads = refl }

pub record-Holds : Holds (voter_weight_record localnet) accounts record_key record_of_voter
unfolding load accounts bare_accounts max_accounts registrar_key record_key max_record_key
    identity_key id entros_anchor_program_id voter_weight_record_space max_voter_weight_record_space
    len registrar_seeds voter_weight_record_seeds max_voter_weight_record_seeds from_le_bytes
    to_le_bytes try_deserialize_registrar try_deserialize_registrar_unchecked
    try_deserialize_unchecked read_registrar read_voter_weight_record read_max_voter_weight_record
    serialize_registrar serialize_voter_weight_record serialize_max_voter_weight_record read_bytes
    read_uint read_option read_action write_option action_byte i64_of_pattern pattern_of_i64
record-Holds = record { owned = refl; reads = refl }

pub max_record-Holds :
    Holds (max_voter_weight_record localnet) max_accounts max_record_key max_record
unfolding load accounts bare_accounts max_accounts registrar_key record_key max_record_key
    identity_key id entros_anchor_program_id voter_weight_record_space max_voter_weight_record_space
    len registrar_seeds voter_weight_record_seeds max_voter_weight_record_seeds from_le_bytes
    to_le_bytes try_deserialize_registrar try_deserialize_registrar_unchecked
    try_deserialize_unchecked read_registrar read_voter_weight_record read_max_voter_weight_record
    serialize_registrar serialize_voter_weight_record serialize_max_voter_weight_record read_bytes
    read_uint read_option read_action write_option action_byte i64_of_pattern pattern_of_i64
max_record-Holds = record { owned = refl; reads = refl }

pub registrar-room : len ≤ length (accounts registrar_key).contents
unfolding load accounts bare_accounts max_accounts registrar_key record_key max_record_key
    identity_key id entros_anchor_program_id voter_weight_record_space max_voter_weight_record_space
    len registrar_seeds voter_weight_record_seeds max_voter_weight_record_seeds from_le_bytes
    to_le_bytes try_deserialize_registrar try_deserialize_registrar_unchecked
    try_deserialize_unchecked read_registrar read_voter_weight_record read_max_voter_weight_record
    serialize_registrar serialize_voter_weight_record serialize_max_voter_weight_record read_bytes
    read_uint read_option read_action write_option action_byte i64_of_pattern pattern_of_i64
registrar-room = omega arith

pub record-room : voter_weight_record_space ≤ length (accounts record_key).contents
unfolding load accounts bare_accounts max_accounts registrar_key record_key max_record_key
    identity_key id entros_anchor_program_id voter_weight_record_space max_voter_weight_record_space
    len registrar_seeds voter_weight_record_seeds max_voter_weight_record_seeds from_le_bytes
    to_le_bytes try_deserialize_registrar try_deserialize_registrar_unchecked
    try_deserialize_unchecked read_registrar read_voter_weight_record read_max_voter_weight_record
    serialize_registrar serialize_voter_weight_record serialize_max_voter_weight_record read_bytes
    read_uint read_option read_action write_option action_byte i64_of_pattern pattern_of_i64
record-room = omega arith

pub max_record-room : max_voter_weight_record_space ≤ length (max_accounts max_record_key).contents
unfolding load accounts bare_accounts max_accounts registrar_key record_key max_record_key
    identity_key id entros_anchor_program_id voter_weight_record_space max_voter_weight_record_space
    len registrar_seeds voter_weight_record_seeds max_voter_weight_record_seeds from_le_bytes
    to_le_bytes try_deserialize_registrar try_deserialize_registrar_unchecked
    try_deserialize_unchecked read_registrar read_voter_weight_record read_max_voter_weight_record
    serialize_registrar serialize_voter_weight_record serialize_max_voter_weight_record read_bytes
    read_uint read_option read_action write_option action_byte i64_of_pattern pattern_of_i64
max_record-room = omega arith

pub registrar-IsValid : Registrar.IsValid registrar
registrar-IsValid = record {
  program_key = omega arith;
  realm_key = omega arith;
  mint_key = omega arith;
  score_u16 = omega arith;
  age_i64 = (omega arith, omega arith);
  reserved_64 = refl;
}

pub record-IsVoterWeightRecord : IsVoterWeightRecord record_of_voter
record-IsVoterWeightRecord = record {
  discriminator_8 = refl;
  realm_key = omega arith;
  mint_key = omega arith;
  owner_key = omega arith;
  weight_u64 = omega arith;
  expiry_u64 = omega arith;
  target_key = tt;
  reserved_8 = refl;
}

pub max_record-IsMaxVoterWeightRecord : IsMaxVoterWeightRecord max_record
max_record-IsMaxVoterWeightRecord = record {
  discriminator_8 = refl;
  realm_key = omega arith;
  mint_key = omega arith;
  weight_u64 = omega arith;
  expiry_u64 = omega arith;
  reserved_8 = refl;
}

-- An account of bytes keeps a ledger of bytes.
set-AllBytes :
    (before : Accounts) (key : Pubkey) (a : Account)
    → ((k : Pubkey) → AllBytes (before k).contents)
    → all_bytes a.contents ≡ true
    → (k : Pubkey) → AllBytes (set before key a k).contents
set-AllBytes before key a old new k = elim (==_cases key k) [
  | inl (test, _) ↦ rw test (all_bytes-AllBytes a.contents new)
  | inr (test, _) ↦ rw test (old k)
]

accounts-AllBytes : (k : Pubkey) → AllBytes (accounts k).contents
unfolding load accounts bare_accounts max_accounts registrar_key record_key max_record_key
    identity_key id entros_anchor_program_id voter_weight_record_space max_voter_weight_record_space
    len registrar_seeds voter_weight_record_seeds max_voter_weight_record_seeds from_le_bytes
    to_le_bytes try_deserialize_registrar try_deserialize_registrar_unchecked
    try_deserialize_unchecked read_registrar read_voter_weight_record read_max_voter_weight_record
    serialize_registrar serialize_voter_weight_record serialize_max_voter_weight_record read_bytes
    read_uint read_option read_action write_option action_byte i64_of_pattern pattern_of_i64
accounts-AllBytes =
    set-AllBytes _ _ _
      (set-AllBytes _ _ _
        (set-AllBytes _ _ _
          (set-AllBytes _ _ _ (set-AllBytes _ _ _ (set-AllBytes _ _ _ (λ _. tt) refl) refl) refl)
          refl)
        refl)
      refl

pub bank-IsMachine : IsMachine registrar bank
bank-IsMachine = record {
  bytes = accounts-AllBytes;
  age = (omega arith, omega arith);
  clock_i64 = λ c e.
      subst (λ (t : Clock). IsI64 t.unix_timestamp) (ok_injective e) (omega arith, omega arith);
  slot_u64 = λ c e. subst (λ (t : Clock). t.slot < 2 ^ 64) (ok_injective e) (omega arith);
  clock_pos =
      λ c e. subst (λ (t : Clock). pos 0 ≤ℤ t.unix_timestamp) (ok_injective e) (omega arith);
}
