-- ===== src/Examples/Runs.antt =====
-- The instructions run on the ledger of `Ledger`.
use entros_governance_plugin.Base.{
  ◌≡◌, refl, pos, ◌-ℤ◌, to_le_bytes, from_le_bytes, i64_of_pattern, pattern_of_i64, checked_sub,
}
use entros_governance_plugin.Error.{Result, ok, err}
use entros_governance_plugin.Solana.{Pubkey, Bank}
use entros_governance_plugin.State.Action.{cast_vote, from}
use entros_governance_plugin.State.Registrar.{len}
use entros_governance_plugin.Governance.{
  id, try_serialize, try_deserialize_unchecked, voter_weight_record_space,
  max_voter_weight_record_space,
}
use entros_governance_plugin.Instructions.Attributes.{
  load, init, exit, require_realm_authority, registrar_seeds, voter_weight_record_seeds,
  max_voter_weight_record_seeds,
}
use entros_governance_plugin.Instructions.CreateRegistrar
use entros_governance_plugin.Instructions.UpdateRegistrar
use entros_governance_plugin.Instructions.CloseRegistrar
use entros_governance_plugin.Instructions.CreateVoterWeightRecord
use entros_governance_plugin.Instructions.UpdateVoterWeightRecord
use entros_governance_plugin.Instructions.CloseVoterWeightRecord
use entros_governance_plugin.Instructions.CreateMaxVoterWeightRecord
use entros_governance_plugin.Instructions.UpdateMaxVoterWeightRecord
use entros_governance_plugin.Instructions.UpdateVoterWeightRecord.{saturating_add}
use entros_governance_plugin.Instructions.UpdateVoterWeightRecord.Identity.{
  verify_voter_identity_and_recency, parse_identity, age_of, slice, try_into, i64_from_le_bytes,
  u16_from_le_bytes, entros_anchor_program_id,
}
use entros_governance_plugin.Layout.{
  read_registrar, read_voter_weight_record, read_max_voter_weight_record, serialize_registrar,
  serialize_voter_weight_record, serialize_max_voter_weight_record, try_deserialize_registrar,
  try_deserialize_registrar_unchecked, try_serialize_registrar,
}
use entros_governance_plugin.Layout.Readers.{
  read_bytes, read_uint, read_option, read_action, write_option, action_byte,
}
use entros_governance_plugin.Examples.Localnet.{localnet}
use entros_governance_plugin.Examples.Ledger
use entros_governance_plugin.Examples.Ledger.{
  registrar_key, record_key, max_record_key, newcomer_record_key, identity_key, accounts,
  bare_accounts, max_accounts,
}

-- The bank that an instruction leaves.
abbrev pub bank_of : Result Bank → Bank
bank_of (ok b) = b
bank_of (err _) = Ledger.bank

-- The target of an update for one action.
abbrev pub proposal : Pubkey
proposal = 4000

abbrev pub created : Result Bank
created = CreateRegistrar.execute localnet Ledger.create 100 (pos 3600) Ledger.bare_bank

pub created_ok : created ≡ ok (bank_of created)
unfolding CreateRegistrar.try_accounts CreateRegistrar.create_registrar CreateRegistrar.execute load
    init exit require_realm_authority registrar_seeds voter_weight_record_seeds
    max_voter_weight_record_seeds accounts bare_accounts max_accounts registrar_key record_key
    max_record_key newcomer_record_key identity_key id len voter_weight_record_space
    max_voter_weight_record_space from_le_bytes to_le_bytes try_serialize try_serialize_registrar
    try_deserialize_registrar try_deserialize_registrar_unchecked try_deserialize_unchecked
    read_registrar read_voter_weight_record read_max_voter_weight_record serialize_registrar
    serialize_voter_weight_record serialize_max_voter_weight_record read_bytes read_uint read_option
    read_action write_option action_byte i64_of_pattern pattern_of_i64 entros_anchor_program_id
created_ok = refl

abbrev pub reconfigured : Result Bank
reconfigured = UpdateRegistrar.execute localnet Ledger.reconfigure 150 (pos 3600) Ledger.bank

pub reconfigured_ok : reconfigured ≡ ok (bank_of reconfigured)
unfolding UpdateRegistrar.try_accounts UpdateRegistrar.update_registrar UpdateRegistrar.execute load
    init exit require_realm_authority registrar_seeds voter_weight_record_seeds
    max_voter_weight_record_seeds accounts bare_accounts max_accounts registrar_key record_key
    max_record_key newcomer_record_key identity_key id len voter_weight_record_space
    max_voter_weight_record_space from_le_bytes to_le_bytes try_serialize try_serialize_registrar
    try_deserialize_registrar try_deserialize_registrar_unchecked try_deserialize_unchecked
    read_registrar read_voter_weight_record read_max_voter_weight_record serialize_registrar
    serialize_voter_weight_record serialize_max_voter_weight_record read_bytes read_uint read_option
    read_action write_option action_byte i64_of_pattern pattern_of_i64 entros_anchor_program_id
reconfigured_ok = refl

abbrev pub closed : Result Bank
closed = CloseRegistrar.execute localnet Ledger.close Ledger.bank

pub closed_ok : closed ≡ ok (bank_of closed)
unfolding CloseRegistrar.try_accounts CloseRegistrar.close_registrar CloseRegistrar.execute load
    init exit require_realm_authority registrar_seeds voter_weight_record_seeds
    max_voter_weight_record_seeds accounts bare_accounts max_accounts registrar_key record_key
    max_record_key newcomer_record_key identity_key id len voter_weight_record_space
    max_voter_weight_record_space from_le_bytes to_le_bytes try_serialize try_serialize_registrar
    try_deserialize_registrar try_deserialize_registrar_unchecked try_deserialize_unchecked
    read_registrar read_voter_weight_record read_max_voter_weight_record serialize_registrar
    serialize_voter_weight_record serialize_max_voter_weight_record read_bytes read_uint read_option
    read_action write_option action_byte i64_of_pattern pattern_of_i64 entros_anchor_program_id
closed_ok = refl

abbrev pub joined : Result Bank
joined = CreateVoterWeightRecord.execute localnet Ledger.join Ledger.newcomer Ledger.bank

pub joined_ok : joined ≡ ok (bank_of joined)
unfolding CreateVoterWeightRecord.try_accounts CreateVoterWeightRecord.create_voter_weight_record
    CreateVoterWeightRecord.execute load init exit require_realm_authority registrar_seeds
    voter_weight_record_seeds max_voter_weight_record_seeds accounts bare_accounts max_accounts
    registrar_key record_key max_record_key newcomer_record_key identity_key id len
    voter_weight_record_space max_voter_weight_record_space from_le_bytes to_le_bytes try_serialize
    try_serialize_registrar try_deserialize_registrar try_deserialize_registrar_unchecked
    try_deserialize_unchecked read_registrar read_voter_weight_record read_max_voter_weight_record
    serialize_registrar serialize_voter_weight_record serialize_max_voter_weight_record read_bytes
    read_uint read_option read_action write_option action_byte i64_of_pattern pattern_of_i64
    entros_anchor_program_id
joined_ok = refl

abbrev pub updated : Result Bank
updated = UpdateVoterWeightRecord.execute localnet Ledger.update Ledger.bank

pub updated_ok : updated ≡ ok (bank_of updated)
unfolding UpdateVoterWeightRecord.try_accounts UpdateVoterWeightRecord.update_voter_weight_record
    UpdateVoterWeightRecord.execute saturating_add verify_voter_identity_and_recency parse_identity
    age_of checked_sub ◌-ℤ◌ slice try_into i64_from_le_bytes u16_from_le_bytes load init exit
    require_realm_authority registrar_seeds voter_weight_record_seeds max_voter_weight_record_seeds
    accounts bare_accounts max_accounts registrar_key record_key max_record_key newcomer_record_key
    identity_key id len voter_weight_record_space max_voter_weight_record_space from_le_bytes
    to_le_bytes try_serialize try_serialize_registrar try_deserialize_registrar
    try_deserialize_registrar_unchecked try_deserialize_unchecked read_registrar
    read_voter_weight_record read_max_voter_weight_record serialize_registrar
    serialize_voter_weight_record serialize_max_voter_weight_record read_bytes read_uint read_option
    read_action write_option action_byte i64_of_pattern pattern_of_i64 entros_anchor_program_id
updated_ok = refl

abbrev pub cast : Result Bank
cast =
    UpdateVoterWeightRecord.execute_for_action localnet Ledger.update cast_vote proposal Ledger.bank

pub cast_ok : cast ≡ ok (bank_of cast)
unfolding UpdateVoterWeightRecord.try_accounts
    UpdateVoterWeightRecord.update_voter_weight_record_for_action
    UpdateVoterWeightRecord.execute_for_action from saturating_add verify_voter_identity_and_recency
    parse_identity age_of checked_sub ◌-ℤ◌ slice try_into i64_from_le_bytes u16_from_le_bytes load
    init exit require_realm_authority registrar_seeds voter_weight_record_seeds
    max_voter_weight_record_seeds accounts bare_accounts max_accounts registrar_key record_key
    max_record_key newcomer_record_key identity_key id len voter_weight_record_space
    max_voter_weight_record_space from_le_bytes to_le_bytes try_serialize try_serialize_registrar
    try_deserialize_registrar try_deserialize_registrar_unchecked try_deserialize_unchecked
    read_registrar read_voter_weight_record read_max_voter_weight_record serialize_registrar
    serialize_voter_weight_record serialize_max_voter_weight_record read_bytes read_uint read_option
    read_action write_option action_byte i64_of_pattern pattern_of_i64 entros_anchor_program_id
cast_ok = refl

abbrev pub left : Result Bank
left = CloseVoterWeightRecord.execute localnet Ledger.leave Ledger.bank

pub left_ok : left ≡ ok (bank_of left)
unfolding CloseVoterWeightRecord.try_accounts CloseVoterWeightRecord.close_voter_weight_record
    CloseVoterWeightRecord.execute load init exit require_realm_authority registrar_seeds
    voter_weight_record_seeds max_voter_weight_record_seeds accounts bare_accounts max_accounts
    registrar_key record_key max_record_key newcomer_record_key identity_key id len
    voter_weight_record_space max_voter_weight_record_space from_le_bytes to_le_bytes try_serialize
    try_serialize_registrar try_deserialize_registrar try_deserialize_registrar_unchecked
    try_deserialize_unchecked read_registrar read_voter_weight_record read_max_voter_weight_record
    serialize_registrar serialize_voter_weight_record serialize_max_voter_weight_record read_bytes
    read_uint read_option read_action write_option action_byte i64_of_pattern pattern_of_i64
    entros_anchor_program_id
left_ok = refl

abbrev pub max_created : Result Bank
max_created = CreateMaxVoterWeightRecord.execute localnet Ledger.create_max Ledger.bank

pub max_created_ok : max_created ≡ ok (bank_of max_created)
unfolding CreateMaxVoterWeightRecord.try_accounts
    CreateMaxVoterWeightRecord.create_max_voter_weight_record CreateMaxVoterWeightRecord.execute
    load init exit require_realm_authority registrar_seeds voter_weight_record_seeds
    max_voter_weight_record_seeds accounts bare_accounts max_accounts registrar_key record_key
    max_record_key newcomer_record_key identity_key id len voter_weight_record_space
    max_voter_weight_record_space from_le_bytes to_le_bytes try_serialize try_serialize_registrar
    try_deserialize_registrar try_deserialize_registrar_unchecked try_deserialize_unchecked
    read_registrar read_voter_weight_record read_max_voter_weight_record serialize_registrar
    serialize_voter_weight_record serialize_max_voter_weight_record read_bytes read_uint read_option
    read_action write_option action_byte i64_of_pattern pattern_of_i64 entros_anchor_program_id
max_created_ok = refl

abbrev pub max_updated : Result Bank
max_updated = UpdateMaxVoterWeightRecord.execute localnet Ledger.set_max 42 Ledger.max_bank

pub max_updated_ok : max_updated ≡ ok (bank_of max_updated)
unfolding UpdateMaxVoterWeightRecord.try_accounts
    UpdateMaxVoterWeightRecord.update_max_voter_weight_record UpdateMaxVoterWeightRecord.execute
    load init exit require_realm_authority registrar_seeds voter_weight_record_seeds
    max_voter_weight_record_seeds accounts bare_accounts max_accounts registrar_key record_key
    max_record_key newcomer_record_key identity_key id len voter_weight_record_space
    max_voter_weight_record_space from_le_bytes to_le_bytes try_serialize try_serialize_registrar
    try_deserialize_registrar try_deserialize_registrar_unchecked try_deserialize_unchecked
    read_registrar read_voter_weight_record read_max_voter_weight_record serialize_registrar
    serialize_voter_weight_record serialize_max_voter_weight_record read_bytes read_uint read_option
    read_action write_option action_byte i64_of_pattern pattern_of_i64 entros_anchor_program_id
max_updated_ok = refl
