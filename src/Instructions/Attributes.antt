-- ===== src/Instructions/Attributes.antt =====
-- The attributes that the account structs of programs/entros-voter-weight/src/instructions share,
-- the seeds of the program's addresses, and the check of the realm's authority.
pub mod Access
pub mod Addresses
use entros_governance_plugin.Base.{List, [], ◌∷◌, ℕ, Bytes, bytes, ◌==◌, not}
use entros_governance_plugin.Error.{
  Result, ok, ◌>>=◌, ◌>>◌, require, ok_or, entros, anchor, account_not_signer, invalid_program_id,
  invalid_program_executable, constraint_mut, constraint_raw, constraint_seeds, constraint_close,
  realm_has_no_authority, invalid_realm_authority,
}
use entros_governance_plugin.Solana.{Pubkey, as_ref, system_program_id, Accounts, AccountMeta, set}
use entros_governance_plugin.Runtime.{Runtime, AccountType}
use entros_governance_plugin.Governance.{id}

-- `Signer<'info>`.
abbrev pub signer : AccountMeta → Result (Unit {0})
signer m = require m.is_signer (anchor account_not_signer)

-- `#[account(mut)]`.
abbrev pub mutable : AccountMeta → Result (Unit {0})
mutable m = require m.is_writable (anchor constraint_mut)

-- `#[account(constraint = a == b)]` on keys.
abbrev pub constraint : Pubkey → Pubkey → Result (Unit {0})
constraint a b = require (a == b) (anchor constraint_raw)

-- `Program<'info, System>`.
abbrev pub system_program : Accounts → AccountMeta → Result (Unit {0})
system_program accounts m = do
  require (m.key == system_program_id) (anchor invalid_program_id)
  require (accounts m.key).executable (anchor invalid_program_executable)

-- `#[account(close = destination)]`, its check.
abbrev pub closes_into : AccountMeta → AccountMeta → Result (Unit {0})
closes_into m destination = require (not (m.key == destination.key)) (anchor constraint_close)

-- The seeds that the account structs name.
unfoldable pub registrar_seeds : Pubkey → Pubkey → List Bytes
registrar_seeds realm mint = bytes "registrar" ∷ as_ref realm ∷ as_ref mint ∷ []

unfoldable pub voter_weight_record_seeds : Pubkey → Pubkey → Pubkey → List Bytes
voter_weight_record_seeds realm mint owner =
    bytes "voter-weight-record" ∷ as_ref realm ∷ as_ref mint ∷ as_ref owner ∷ []

unfoldable pub max_voter_weight_record_seeds : Pubkey → Pubkey → List Bytes
max_voter_weight_record_seeds realm mint =
    bytes "max-voter-weight-record" ∷ as_ref realm ∷ as_ref mint ∷ []

module _ (rt : Runtime) where
  -- The address of this program with the given seeds.
  abbrev pub address : List Bytes → Pubkey
  address seeds = (rt.find_program_address seeds id).0

  -- `seeds = [...], bump`.
  abbrev pub derived : AccountMeta → List Bytes → Result (Unit {0})
  derived m seeds = require (m.key == address seeds) (anchor constraint_seeds)

  -- `Account<'info, T>`: the account is this program's, and its data is read.
  unfoldable pub load : {A : Type 0} → AccountType A → Accounts → AccountMeta → Result A
  load t accounts m = do
    rt.check_account (accounts m.key)
    t.try_deserialize (accounts m.key).contents

  -- `init, seeds = [...], bump, payer = payer, space = space`.
  unfoldable pub init :
      {A : Type 0}
      → AccountType A
      → AccountMeta
      → List Bytes
      → AccountMeta
      → ℕ
      → Accounts
      → Result (A × Accounts)
  init t m seeds payer space accounts = do
    derived m seeds
    created ← rt.create_account payer.key m.key space accounts
    value ← t.try_deserialize_unchecked (created m.key).contents
    mutable m
    ok (value, created)

  -- The block that every administrative handler has: look the realm up, and require that its
  -- authority is the account that signs.
  unfoldable pub require_realm_authority :
      Pubkey → AccountMeta → Pubkey → AccountMeta → Accounts → Result (Unit {0})
  require_realm_authority governance_program_id realm governing_token_mint signing accounts = do
    realm_data ←
        rt.get_realm_data governance_program_id (realm.key, accounts realm.key) governing_token_mint
    realm_authority ← ok_or realm_data.authority (entros realm_has_no_authority)
    require (realm_authority == signing.key) (entros invalid_realm_authority)

-- The write-back of a mutable account at the end of an instruction.
unfoldable pub exit : {A : Type 0} → AccountType A → AccountMeta → A → Accounts → Result Accounts
exit t m value accounts = do
  buffer ← t.try_serialize value (accounts m.key).contents
  ok (set accounts m.key (record (accounts m.key) { contents = buffer }))
