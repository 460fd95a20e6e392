-- ===== src/Governance.antt =====
-- programs/entros-voter-weight/src/governance.rs and src/state/mod.rs: the wrappers that make the
-- addin's records account types of this program. A wrapper is a newtype that dereferences to the
-- record, so it is the record here.
pub mod Saved
use entros_governance_plugin.Base.{
  ℕ, ◌+◌, Option, none, some, List, ◌∷◌, [], ◌++◌, Bytes, from_le_bytes, leb, if◌then◌else◌, length,
  drop,
}
use entros_governance_plugin.Error.{
  Result, ok_or, anchor, account_did_not_deserialize, account_did_not_serialize,
}
use entros_governance_plugin.Solana.{Pubkey}
use entros_governance_plugin.Addin
use entros_governance_plugin.Runtime.{Runtime, Borsh, AccountType}

-- `declare_id!("99nwXzcugse3x8kxE9v6mxZiq8T9gHDoznaaG6qcw534")`, decoded; the wrappers' `owner()`.
unfoldable pub id : Pubkey
unfolding from_le_bytes
id = from_le_bytes (
    0x79 ∷ 0x1e ∷ 0x16 ∷ 0x31 ∷ 0x21 ∷ 0x19 ∷ 0xef ∷ 0xce ∷ 0x37 ∷ 0x4a ∷ 0x1d ∷ 0xa9 ∷ 0xdc ∷ 0x8f
    ∷ 0x23 ∷ 0x48 ∷ 0xb2 ∷ 0x9a ∷ 0x97 ∷ 0xe5 ∷ 0xe8 ∷ 0x0a ∷ 0x63 ∷ 0x7d ∷ 0x95 ∷ 0xfc ∷ 0xe2
    ∷ 0x2c ∷ 0xb9 ∷ 0x3f ∷ 0x84 ∷ 0x67 ∷ [])

-- `VoterWeightRecord::get_space()`.
unfoldable pub voter_weight_record_space : ℕ
voter_weight_record_space = 8 + 32 + 32 + 32 + 8 + 9 + 2 + 33 + 8

-- `MaxVoterWeightRecord::get_space()`.
unfoldable pub max_voter_weight_record_space : ℕ
max_voter_weight_record_space = 8 + 32 + 32 + 8 + 9 + 8

-- A writer over an account's data: the bytes replace the start, if they fit.
abbrev pub write_all : Bytes → Bytes → Option Bytes
write_all bs buffer =
    if leb (length bs) (length buffer) then some (bs ++ drop (length bs) buffer) else none

-- The `AccountSerialize` and `AccountDeserialize` of the wrappers, over the record's Borsh. The
-- wrappers define `try_deserialize_unchecked` alone, and the trait's `try_deserialize` calls it.
module _ {A : Type 0} (borsh : Borsh A) where
  unfoldable pub try_serialize : A → Bytes → Result Bytes
  try_serialize record_data writer =
      ok_or (write_all (borsh.serialize record_data) writer) (anchor account_did_not_serialize)

  unfoldable pub try_deserialize_unchecked : Bytes → Result A
  try_deserialize_unchecked buf = ok_or (borsh.deserialize buf) (anchor account_did_not_deserialize)

  abbrev pub wrapper : AccountType A
  wrapper = record {
    try_serialize = try_serialize;
    try_deserialize = try_deserialize_unchecked;
    try_deserialize_unchecked = try_deserialize_unchecked;
  }

-- The two account types that the macros make.
abbrev pub voter_weight_record : Runtime → AccountType Addin.VoterWeightRecord
voter_weight_record rt = wrapper rt.borsh_voter_weight_record

abbrev pub max_voter_weight_record : Runtime → AccountType Addin.MaxVoterWeightRecord
max_voter_weight_record rt = wrapper rt.borsh_max_voter_weight_record
