-- ===== src/State/Registrar.antt =====
-- programs/entros-voter-weight/src/state/registrar.rs: the registrar account.
use entros_governance_plugin.Base.{ℕ, ◌+◌, ◌^◌, ◌<◌, ◌≡◌, Bytes, ℤ, IsI64, length}
use entros_governance_plugin.Solana.{Pubkey, IsPubkey}

pub record Registrar : Type 0 where
  pub governance_program_id : Pubkey
  pub realm : Pubkey
  pub governing_token_mint : Pubkey
  pub min_trust_score : ℕ
  pub max_verification_age : ℤ
  pub reserved : Bytes

-- Every field is within its Rust type.
pub record IsValid (r : Registrar) : Type 0 where
  pub program_key : IsPubkey r.governance_program_id
  pub realm_key : IsPubkey r.realm
  pub mint_key : IsPubkey r.governing_token_mint
  pub score_u16 : r.min_trust_score < 2 ^ 16
  pub age_i64 : IsI64 r.max_verification_age
  pub reserved_64 : length r.reserved ≡ 64

-- `Registrar::LEN`: the discriminator and the fields, in the order of the struct.
unfoldable pub len : ℕ
len = 8 + 32 + 32 + 32 + 2 + 8 + 64
