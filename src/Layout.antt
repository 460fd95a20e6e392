-- ===== src/Layout.antt =====
-- The bytes of the program's accounts: the fields in order, with the widths that
-- programs/entros-voter-weight/src/governance.rs (`get_space`) and src/state/registrar.rs (`Registrar::LEN`)
-- list and the offsets that the round-trip test of update_voter_weight_record.rs checks. It is the
-- instance of `Runtime`'s Borsh that the byte-level theorems and the tests use.
pub mod Readers
pub mod RoundTrip
pub mod Space
pub mod First
use entros_governance_plugin.Base.{
  ℕ, Option, none, some, List, [], ◌∷◌, ◌++◌, Bytes, to_le_bytes, from_le_bytes, leb, ◌==◌,
  if◌then◌else◌, length, take, drop, list_eq, ℤ, i64_of_pattern, pattern_of_i64,
}
use entros_governance_plugin.Error.{
  Result, ok_or, require, ◌>>◌, anchor, account_did_not_deserialize, account_did_not_serialize,
}
use entros_governance_plugin.Solana.{Pubkey, as_ref}
use entros_governance_plugin.Addin
use entros_governance_plugin.State.Registrar.{Registrar}
use entros_governance_plugin.Runtime.{Borsh, AccountType}
use entros_governance_plugin.Governance.{write_all}
use Readers.{
  Reader, ◌>>=◌, pure, read_bytes, read_uint, read_option, read_action, write_option, action_byte,
}

-- `VoterWeightRecord`, in the order of `get_space`.
unfoldable pub serialize_voter_weight_record : Addin.VoterWeightRecord → Bytes
serialize_voter_weight_record v =
    v.account_discriminator
    ++ (as_ref v.realm
        ++ (as_ref v.governing_token_mint
            ++ (as_ref v.governing_token_owner
                ++ (to_le_bytes 8 v.voter_weight
                    ++ (write_option (to_le_bytes 8) v.voter_weight_expiry
                        ++ (write_option (λ a. action_byte a ∷ []) v.weight_action
                            ++ (write_option as_ref v.weight_action_target ++ v.reserved)))))))

unfoldable pub read_voter_weight_record : Reader Addin.VoterWeightRecord
read_voter_weight_record = do
  account_discriminator ← read_bytes 8
  realm ← read_uint 32
  governing_token_mint ← read_uint 32
  governing_token_owner ← read_uint 32
  voter_weight ← read_uint 8
  voter_weight_expiry ← read_option (read_uint 8)
  weight_action ← read_option read_action
  weight_action_target ← read_option (read_uint 32)
  reserved ← read_bytes 8
  pure (record {
    account_discriminator = account_discriminator;
    realm = realm;
    governing_token_mint = governing_token_mint;
    governing_token_owner = governing_token_owner;
    voter_weight = voter_weight;
    voter_weight_expiry = voter_weight_expiry;
    weight_action = weight_action;
    weight_action_target = weight_action_target;
    reserved = reserved;
  })

-- `MaxVoterWeightRecord`, in the order of `get_space`.
unfoldable pub serialize_max_voter_weight_record : Addin.MaxVoterWeightRecord → Bytes
serialize_max_voter_weight_record m =
    m.account_discriminator
    ++ (as_ref m.realm
        ++ (as_ref m.governing_token_mint
            ++ (to_le_bytes 8 m.max_voter_weight
                ++ (write_option (to_le_bytes 8) m.max_voter_weight_expiry ++ m.reserved))))

unfoldable pub read_max_voter_weight_record : Reader Addin.MaxVoterWeightRecord
read_max_voter_weight_record = do
  account_discriminator ← read_bytes 8
  realm ← read_uint 32
  governing_token_mint ← read_uint 32
  max_voter_weight ← read_uint 8
  max_voter_weight_expiry ← read_option (read_uint 8)
  reserved ← read_bytes 8
  pure (record {
    account_discriminator = account_discriminator;
    realm = realm;
    governing_token_mint = governing_token_mint;
    max_voter_weight = max_voter_weight;
    max_voter_weight_expiry = max_voter_weight_expiry;
    reserved = reserved;
  })

-- `Registrar` after its discriminator, in the order of the struct.
unfoldable pub serialize_registrar : Registrar → Bytes
serialize_registrar r =
    as_ref r.governance_program_id
    ++ (as_ref r.realm
        ++ (as_ref r.governing_token_mint
            ++ (to_le_bytes 2 r.min_trust_score
                ++ (to_le_bytes 8 (pattern_of_i64 r.max_verification_age) ++ r.reserved))))

unfoldable pub read_registrar : Reader Registrar
read_registrar = do
  governance_program_id ← read_uint 32
  realm ← read_uint 32
  governing_token_mint ← read_uint 32
  min_trust_score ← read_uint 2
  age_pattern ← read_uint 8
  reserved ← read_bytes 64
  pure (record {
    governance_program_id = governance_program_id;
    realm = realm;
    governing_token_mint = governing_token_mint;
    min_trust_score = min_trust_score;
    max_verification_age = i64_of_pattern age_pattern;
    reserved = reserved;
  })

-- The value that a reader finds.
abbrev pub value_of {ℓ} : {A : Type ℓ} → Option (A × Bytes) → Option A
value_of none = none
value_of (some (a, rest)) = some a

abbrev pub voter_weight_record_borsh : Borsh Addin.VoterWeightRecord
voter_weight_record_borsh = record {
  serialize = serialize_voter_weight_record;
  deserialize = λ bs. value_of (read_voter_weight_record bs);
}

abbrev pub max_voter_weight_record_borsh : Borsh Addin.MaxVoterWeightRecord
max_voter_weight_record_borsh = record {
  serialize = serialize_max_voter_weight_record;
  deserialize = λ bs. value_of (read_max_voter_weight_record bs);
}

-- What `#[account]` derives for the registrar, over its eight-byte discriminator.
module _ (discriminator : Bytes) where
  unfoldable pub try_deserialize_registrar_unchecked : Bytes → Result Registrar
  try_deserialize_registrar_unchecked buf =
      ok_or (value_of (read_registrar (drop 8 buf))) (anchor account_did_not_deserialize)

  unfoldable pub try_deserialize_registrar : Bytes → Result Registrar
  try_deserialize_registrar buf = do
    require (list_eq (take 8 buf) discriminator) (anchor account_did_not_deserialize)
    try_deserialize_registrar_unchecked buf

  unfoldable pub try_serialize_registrar : Registrar → Bytes → Result Bytes
  try_serialize_registrar r writer =
      ok_or (write_all (discriminator ++ serialize_registrar r) writer)
        (anchor account_did_not_serialize)

  abbrev pub registrar_account : AccountType Registrar
  registrar_account = record {
    try_serialize = try_serialize_registrar;
    try_deserialize = try_deserialize_registrar;
    try_deserialize_unchecked = try_deserialize_registrar_unchecked;
  }
