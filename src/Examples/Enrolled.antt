-- ===== src/Examples/Enrolled.antt =====
-- A registrar is created, and then a record under it.
use entros_governance_plugin.Base.{
  take, ◌≡◌, refl, to_le_bytes, from_le_bytes, i64_of_pattern, pattern_of_i64,
}
use entros_governance_plugin.Error.{Result, ok}
use entros_governance_plugin.Solana.{Bank}
use entros_governance_plugin.State.Registrar.{len}
use entros_governance_plugin.Governance.{
  voter_weight_record, id, try_serialize, try_deserialize_unchecked, voter_weight_record_space,
  max_voter_weight_record_space,
}
use entros_governance_plugin.Instructions.Attributes.{
  load, init, exit, require_realm_authority, registrar_seeds, voter_weight_record_seeds,
  max_voter_weight_record_seeds,
}
use entros_governance_plugin.Instructions.CreateRegistrar
use entros_governance_plugin.Instructions.CreateVoterWeightRecord
use entros_governance_plugin.Instructions.CreateVoterWeightRecord.Effect.{born_expired}
use entros_governance_plugin.Instructions.UpdateVoterWeightRecord.Identity.{
  entros_anchor_program_id,
}
use entros_governance_plugin.Layout.{
  read_registrar, read_voter_weight_record, read_max_voter_weight_record, serialize_registrar,
  serialize_voter_weight_record, serialize_max_voter_weight_record, try_deserialize_registrar,
  try_deserialize_registrar_unchecked, try_serialize_registrar,
}
use entros_governance_plugin.Layout.Readers.{
  read_bytes, read_uint, read_option, read_action, write_option, action_byte,
}
use entros_governance_plugin.Examples.Localnet.{localnet}
use entros_governance_plugin.Examples.Ledger
use entros_governance_plugin.Examples.Ledger.{
  registrar_key, record_key, max_record_key, newcomer_record_key, identity_key, accounts,
  bare_accounts, max_accounts,
}
use entros_governance_plugin.Examples.Runs.{bank_of, created}

-- A record created under a registrar that was created before.
abbrev pub enrolled : Result Bank
enrolled = CreateVoterWeightRecord.execute localnet Ledger.join Ledger.newcomer (bank_of created)

pub enrolled_ok : enrolled ≡ ok (bank_of enrolled)
unfolding CreateVoterWeightRecord.try_accounts CreateVoterWeightRecord.create_voter_weight_record
    CreateVoterWeightRecord.execute load init exit require_realm_authority registrar_seeds
    voter_weight_record_seeds max_voter_weight_record_seeds accounts bare_accounts max_accounts
    registrar_key record_key max_record_key newcomer_record_key identity_key id len
    voter_weight_record_space max_voter_weight_record_space from_le_bytes to_le_bytes try_serialize
    try_serialize_registrar try_deserialize_registrar try_deserialize_registrar_unchecked
    try_deserialize_unchecked read_registrar read_voter_weight_record read_max_voter_weight_record
    serialize_registrar serialize_voter_weight_record serialize_max_voter_weight_record read_bytes
    read_uint read_option read_action write_option action_byte i64_of_pattern pattern_of_i64
    entros_anchor_program_id CreateRegistrar.try_accounts CreateRegistrar.create_registrar
    CreateRegistrar.execute
enrolled_ok = refl

pub enrolled_record :
    (voter_weight_record localnet).try_deserialize
      ((bank_of enrolled).accounts newcomer_record_key).contents
    ≡ ok (born_expired localnet Ledger.registrar Ledger.newcomer)
unfolding CreateVoterWeightRecord.try_accounts CreateVoterWeightRecord.create_voter_weight_record
    CreateVoterWeightRecord.execute load init exit require_realm_authority registrar_seeds
    voter_weight_record_seeds max_voter_weight_record_seeds accounts bare_accounts max_accounts
    registrar_key record_key max_record_key newcomer_record_key identity_key id len
    voter_weight_record_space max_voter_weight_record_space from_le_bytes to_le_bytes try_serialize
    try_serialize_registrar try_deserialize_registrar try_deserialize_registrar_unchecked
    try_deserialize_unchecked read_registrar read_voter_weight_record read_max_voter_weight_record
    serialize_registrar serialize_voter_weight_record serialize_max_voter_weight_record read_bytes
    read_uint read_option read_action write_option action_byte i64_of_pattern pattern_of_i64
    entros_anchor_program_id CreateRegistrar.try_accounts CreateRegistrar.create_registrar
    CreateRegistrar.execute
enrolled_record = refl

pub enrolled_tagged :
    take 8 ((bank_of enrolled).accounts newcomer_record_key).contents
    ≡ localnet.voter_weight_record_discriminator
unfolding CreateVoterWeightRecord.try_accounts CreateVoterWeightRecord.create_voter_weight_record
    CreateVoterWeightRecord.execute load init exit require_realm_authority registrar_seeds
    voter_weight_record_seeds max_voter_weight_record_seeds accounts bare_accounts max_accounts
    registrar_key record_key max_record_key newcomer_record_key identity_key id len
    voter_weight_record_space max_voter_weight_record_space from_le_bytes to_le_bytes try_serialize
    try_serialize_registrar try_deserialize_registrar try_deserialize_registrar_unchecked
    try_deserialize_unchecked read_registrar read_voter_weight_record read_max_voter_weight_record
    serialize_registrar serialize_voter_weight_record serialize_max_voter_weight_record read_bytes
    read_uint read_option read_action write_option action_byte i64_of_pattern pattern_of_i64
    entros_anchor_program_id CreateRegistrar.try_accounts CreateRegistrar.create_registrar
    CreateRegistrar.execute
enrolled_tagged = refl

pub enrolled_owner : ((bank_of enrolled).accounts newcomer_record_key).owner ≡ id
unfolding CreateVoterWeightRecord.try_accounts CreateVoterWeightRecord.create_voter_weight_record
    CreateVoterWeightRecord.execute load init exit require_realm_authority registrar_seeds
    voter_weight_record_seeds max_voter_weight_record_seeds accounts bare_accounts max_accounts
    registrar_key record_key max_record_key newcomer_record_key identity_key id len
    voter_weight_record_space max_voter_weight_record_space from_le_bytes to_le_bytes try_serialize
    try_serialize_registrar try_deserialize_registrar try_deserialize_registrar_unchecked
    try_deserialize_unchecked read_registrar read_voter_weight_record read_max_voter_weight_record
    serialize_registrar serialize_voter_weight_record serialize_max_voter_weight_record read_bytes
    read_uint read_option read_action write_option action_byte i64_of_pattern pattern_of_i64
    entros_anchor_program_id CreateRegistrar.try_accounts CreateRegistrar.create_registrar
    CreateRegistrar.execute
enrolled_owner = refl
