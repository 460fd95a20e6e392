-- ===== src/Runtime.antt =====
-- What the program calls and does not implement: Solana's address derivation, the realm lookup of
-- spl-governance, Borsh, and the account framework. Every definition that uses one of these takes
-- a `Runtime`; `Runtime.Laws` states the documented behaviour that theorems rely on.
pub mod Laws
use entros_governance_plugin.Base.{ℕ, Option, List, Bytes}
use entros_governance_plugin.Error.{Result}
use entros_governance_plugin.Solana.{Pubkey, Account, Accounts}
use entros_governance_plugin.Addin
use entros_governance_plugin.State.Registrar.{Registrar}

-- Borsh's reader and writer for one type. A reader takes a prefix of its input.
pub record Borsh (A : Type 0) : Type 0 where
  pub serialize : A → Bytes
  pub deserialize : Bytes → Option A

-- `AccountSerialize` and `AccountDeserialize` for one type. A writer overwrites the start of the
-- account's data and fails where that is too short.
pub record AccountType (A : Type 0) : Type 0 where
  pub try_serialize : A → Bytes → Result Bytes
  pub try_deserialize : Bytes → Result A
  pub try_deserialize_unchecked : Bytes → Result A

-- The field of spl-governance's realm account that the program reads.
pub record RealmData : Type 0 where
  pub authority : Option Pubkey

pub record Runtime : Type 0 where
  -- `Pubkey::find_program_address(seeds, program_id)`: the address and its bump.
  pub find_program_address : List Bytes → Pubkey → Pubkey × ℕ
  -- `realm::get_realm_data_for_governing_token_mint(program_id, realm_info, mint)`.
  pub get_realm_data : Pubkey → Pubkey × Account → Pubkey → Result RealmData
  pub borsh_voter_weight_record : Borsh Addin.VoterWeightRecord
  pub borsh_max_voter_weight_record : Borsh Addin.MaxVoterWeightRecord
  -- `ACCOUNT_DISCRIMINATOR` of the two addin records.
  pub voter_weight_record_discriminator : Bytes
  pub max_voter_weight_record_discriminator : Bytes
  -- What `#[account]` derives for `Registrar`.
  pub registrar : AccountType Registrar
  -- What `Account<'info, T>` checks before it reads the data.
  pub check_account : Account → Result (Unit {0})
  -- `init`: create the account of the given address and size, paid for by the payer.
  pub create_account : Pubkey → Pubkey → ℕ → Accounts → Result Accounts
  -- `close`: close the account of the first address in favour of the second.
  pub close_account : Pubkey → Pubkey → Accounts → Accounts
