-- ===== src/Examples/Confused.antt =====
-- The wrappers of the addin records have no discriminator check: what an update of the wrong kind of
-- record does.
use entros_governance_plugin.Base.{
  ◌≡◌, refl, to_le_bytes, from_le_bytes, i64_of_pattern, pattern_of_i64,
}
use entros_governance_plugin.Error.{Result, ok, err}
use entros_governance_plugin.Solana.{Bank}
use entros_governance_plugin.State.Registrar.{len}
use entros_governance_plugin.Governance.{
  voter_weight_record, id, try_serialize, try_deserialize_unchecked, voter_weight_record_space,
  max_voter_weight_record_space,
}
use entros_governance_plugin.Instructions.Attributes.{
  load, init, exit, require_realm_authority, registrar_seeds, voter_weight_record_seeds,
  max_voter_weight_record_seeds,
}
use entros_governance_plugin.Addin.{VoterWeightRecord}
use entros_governance_plugin.Instructions.UpdateMaxVoterWeightRecord
use entros_governance_plugin.Instructions.UpdateVoterWeightRecord.Identity.{
  entros_anchor_program_id,
}
use entros_governance_plugin.Layout.{
  read_registrar, read_voter_weight_record, read_max_voter_weight_record, serialize_registrar,
  serialize_voter_weight_record, serialize_max_voter_weight_record, try_deserialize_registrar,
  try_deserialize_registrar_unchecked, try_serialize_registrar,
}
use entros_governance_plugin.Layout.Readers.{
  read_bytes, read_uint, read_option, read_action, write_option, action_byte,
}
use entros_governance_plugin.Examples.Localnet.{localnet}
use entros_governance_plugin.Examples.Ledger
use entros_governance_plugin.Examples.Ledger.{
  registrar_key, record_key, max_record_key, newcomer_record_key, identity_key, accounts,
  bare_accounts, max_accounts,
}
use entros_governance_plugin.Examples.Runs.{bank_of}

abbrev map_ok : {A B : Type 0} → (A → B) → Result A → Result B
map_ok f (ok a) = ok (f a)
map_ok f (err e) = err e

-- The realm's authority sets the max voter weight in a voter's record: the account is read as a max
-- voter weight record, and the voter's record has another owner afterwards.
abbrev pub confused : Result Bank
confused =
    UpdateMaxVoterWeightRecord.execute localnet
      (record Ledger.set_max { max_voter_weight_record = Ledger.writes record_key }) 42 Ledger.bank

confused_ok : confused ≡ ok (bank_of confused)
unfolding UpdateMaxVoterWeightRecord.try_accounts
    UpdateMaxVoterWeightRecord.update_max_voter_weight_record UpdateMaxVoterWeightRecord.execute
    load init exit require_realm_authority registrar_seeds voter_weight_record_seeds
    max_voter_weight_record_seeds accounts bare_accounts max_accounts registrar_key record_key
    max_record_key newcomer_record_key identity_key id len voter_weight_record_space
    max_voter_weight_record_space from_le_bytes to_le_bytes try_serialize try_serialize_registrar
    try_deserialize_registrar try_deserialize_registrar_unchecked try_deserialize_unchecked
    read_registrar read_voter_weight_record read_max_voter_weight_record serialize_registrar
    serialize_voter_weight_record serialize_max_voter_weight_record read_bytes read_uint read_option
    read_action write_option action_byte i64_of_pattern pattern_of_i64 entros_anchor_program_id
confused_ok = refl

confused_owner :
    map_ok
      (λ (v : VoterWeightRecord). v.governing_token_owner)
      ((voter_weight_record localnet).try_deserialize
        ((bank_of confused).accounts record_key).contents)
    ≡ ok 42
unfolding UpdateMaxVoterWeightRecord.try_accounts
    UpdateMaxVoterWeightRecord.update_max_voter_weight_record UpdateMaxVoterWeightRecord.execute
    load init exit require_realm_authority registrar_seeds voter_weight_record_seeds
    max_voter_weight_record_seeds accounts bare_accounts max_accounts registrar_key record_key
    max_record_key newcomer_record_key identity_key id len voter_weight_record_space
    max_voter_weight_record_space from_le_bytes to_le_bytes try_serialize try_serialize_registrar
    try_deserialize_registrar try_deserialize_registrar_unchecked try_deserialize_unchecked
    read_registrar read_voter_weight_record read_max_voter_weight_record serialize_registrar
    serialize_voter_weight_record serialize_max_voter_weight_record read_bytes read_uint read_option
    read_action write_option action_byte i64_of_pattern pattern_of_i64 entros_anchor_program_id
confused_owner = refl
