-- ===== src/Runtime/Laws.antt =====
-- The documented behaviour of the code in `Runtime`, as hypotheses of the theorems.
use entros_governance_plugin.Base.{
  ℕ, ◌+◌, ◌≤◌, ◌<◌, ◌^◌, ◌≡◌, ◌≢◌, ◌↔◌, Option, none, some, ◌++◌, Bytes, length, replicate, pos,
}
use entros_governance_plugin.Error.{ok}
use entros_governance_plugin.Solana.{Pubkey, IsPubkey, Account, Accounts}
use entros_governance_plugin.Addin
use entros_governance_plugin.State.Registrar
use entros_governance_plugin.State.Registrar.{Registrar}
use entros_governance_plugin.Runtime.{Runtime, Borsh, AccountType}
use entros_governance_plugin.Governance.{
  id, voter_weight_record_space, max_voter_weight_record_space,
}

-- The value of an option, if there is one.
abbrev pub Within {ℓ} : {A : Type 0} → (A → Type ℓ) → Option A → Type ℓ
Within P none = Unit
Within P (some a) = P a

-- Every field is within its Rust type.
pub record IsVoterWeightRecord (v : Addin.VoterWeightRecord) : Type 0 where
  pub discriminator_8 : length v.account_discriminator ≡ 8
  pub realm_key : IsPubkey v.realm
  pub mint_key : IsPubkey v.governing_token_mint
  pub owner_key : IsPubkey v.governing_token_owner
  pub weight_u64 : v.voter_weight < 2 ^ 64
  pub expiry_u64 : Within (λ e. e < 2 ^ 64) v.voter_weight_expiry
  pub target_key : Within IsPubkey v.weight_action_target
  pub reserved_8 : length v.reserved ≡ 8

pub record IsMaxVoterWeightRecord (m : Addin.MaxVoterWeightRecord) : Type 0 where
  pub discriminator_8 : length m.account_discriminator ≡ 8
  pub realm_key : IsPubkey m.realm
  pub mint_key : IsPubkey m.governing_token_mint
  pub weight_u64 : m.max_voter_weight < 2 ^ 64
  pub expiry_u64 : Within (λ e. e < 2 ^ 64) m.max_voter_weight_expiry
  pub reserved_8 : length m.reserved ≡ 8

-- Borsh reads back what it wrote, whatever follows, and reads zeros as a record of zeros.
pub record IsBorsh {A : Type 0} (b : Borsh A) (IsValid : A → Type 0) (space : ℕ) (zeroed : A)
    : Type 0 where
  pub length-serialize : (a : A) → IsValid a → length (b.serialize a) ≤ space
  pub deserialize-serialize :
      (a : A) (rest : Bytes) → IsValid a → b.deserialize (b.serialize a ++ rest) ≡ some a
  pub deserialize-replicate : b.deserialize (replicate space 0) ≡ some zeroed

-- A value that is written into an account of at least the given size is read back.
pub record IsAccountType {A : Type 0} (t : AccountType A) (IsValid : A → Type 0) (space : ℕ)
    (zeroed : A) : Type 0 where
  pub saves :
      (a : A) (buffer : Bytes)
      → IsValid a
      → space ≤ length buffer
      → (saved : Bytes) × (t.try_serialize a buffer ≡ ok saved)
        × (length saved ≡ length buffer)
        × (t.try_deserialize saved ≡ ok a)
  pub initial : t.try_deserialize_unchecked (replicate space 0) ≡ ok zeroed

abbrev pub zero_registrar : Registrar
zero_registrar = record {
  governance_program_id = 0;
  realm = 0;
  governing_token_mint = 0;
  min_trust_score = 0;
  max_verification_age = pos 0;
  reserved = replicate 64 0;
}

abbrev pub zero_voter_weight_record : Addin.VoterWeightRecord
zero_voter_weight_record = record {
  account_discriminator = replicate 8 0;
  realm = 0;
  governing_token_mint = 0;
  governing_token_owner = 0;
  voter_weight = 0;
  voter_weight_expiry = none;
  weight_action = none;
  weight_action_target = none;
  reserved = replicate 8 0;
}

abbrev pub zero_max_voter_weight_record : Addin.MaxVoterWeightRecord
zero_max_voter_weight_record = record {
  account_discriminator = replicate 8 0;
  realm = 0;
  governing_token_mint = 0;
  max_voter_weight = 0;
  max_voter_weight_expiry = none;
  reserved = replicate 8 0;
}

-- The same owner and data; lamports may differ.
abbrev pub SameData : Account → Account → Type 0
SameData a b = (a.owner ≡ b.owner) × (a.contents ≡ b.contents)

-- `init` creates an account of zeros for this program, at an address that the program did not own.
pub record Created (key : Pubkey) (space : ℕ) (before after : Accounts) : Type 0 where
  pub unused : (before key).owner ≢ id
  pub owned : (after key).owner ≡ id
  pub zeros : (after key).contents ≡ replicate space 0
  pub others : (k : Pubkey) → k ≢ key → SameData (after k) (before k)

-- `close` takes the account away from the program, empties it and moves its lamports.
pub record Closed (key destination : Pubkey) (before after : Accounts) : Type 0 where
  pub released : (after key).owner ≢ id
  pub drained : (after key).lamports ≡ 0
  pub paid : (after destination).lamports ≡ (before destination).lamports + (before key).lamports
  pub others : (k : Pubkey) → k ≢ key → SameData (after k) (before k)

pub record IsRuntime (rt : Runtime) : Type 0 where
  pub check_account_iff : (a : Account) → (rt.check_account a ≡ ok tt) ↔ (a.owner ≡ id)
  pub created :
      (payer key : Pubkey) (space : ℕ) (before after : Accounts)
      → rt.create_account payer key space before ≡ ok after
      → Created key space before after
  pub closed :
      (key destination : Pubkey) (before : Accounts)
      → key ≢ destination
      → Closed key destination before (rt.close_account key destination before)
  pub discriminator_8 : length rt.voter_weight_record_discriminator ≡ 8
  pub max_discriminator_8 : length rt.max_voter_weight_record_discriminator ≡ 8
  pub registrar_saved : IsAccountType rt.registrar Registrar.IsValid Registrar.len zero_registrar
  pub voter_weight_record_borsh :
      IsBorsh rt.borsh_voter_weight_record IsVoterWeightRecord voter_weight_record_space
        zero_voter_weight_record
  pub max_voter_weight_record_borsh :
      IsBorsh rt.borsh_max_voter_weight_record IsMaxVoterWeightRecord max_voter_weight_record_space
        zero_max_voter_weight_record
