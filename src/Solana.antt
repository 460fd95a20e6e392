-- ===== src/Solana.antt =====
-- What the handlers see of the chain: public keys, accounts, the clock, and an instruction's
-- account references.
use entros_governance_plugin.Base.{
  ℕ, ◌^◌, ◌<◌, ◌≡◌, ◌≢◌, Bool, Bytes, to_le_bytes, ℤ, ◌==◌, if◌then◌else◌, arith,
}
use entros_governance_plugin.Error.{Result}

-- A public key is its 32 bytes, read as one little-endian number.
abbrev pub Pubkey : Type 0
Pubkey = ℕ

abbrev pub IsPubkey : Pubkey → Type 0
IsPubkey k = k < 2 ^ 256

-- `key.as_ref()`.
abbrev pub as_ref : Pubkey → Bytes
as_ref k = to_le_bytes 32 k

-- `Pubkey::default()`, 32 zero bytes; it is also the system program's id.
abbrev pub default_pubkey : Pubkey
default_pubkey = 0

abbrev pub system_program_id : Pubkey
system_program_id = 0

pub record Account : Type 0 where
  pub lamports : ℕ
  pub owner : Pubkey
  pub executable : Bool
  pub contents : Bytes

-- Every address has an account; an unused one has no lamports and is the system program's.
abbrev pub Accounts : Type 0
Accounts = Pubkey → Account

abbrev pub set : Accounts → Pubkey → Account → Accounts
set accounts k a j = if k == j then a else accounts j

pub set_self : (accounts : Accounts) (k : Pubkey) (a : Account) → set accounts k a k ≡ a
set_self accounts k a = ground arith

pub set_ne :
    (accounts : Accounts) (k j : Pubkey) (a : Account) → j ≢ k → set accounts k a j ≡ accounts j
set_ne accounts k j a h = ground arith

-- `Clock`, the fields that the program reads.
pub record Clock : Type 0 where
  pub slot : ℕ
  pub unix_timestamp : ℤ

-- The state that an instruction runs against; `clock` is the result of `Clock::get()`.
pub record Bank : Type 0 where
  pub accounts : Accounts
  pub clock : Result Clock

-- One account reference of an instruction.
pub record AccountMeta : Type 0 where
  pub key : Pubkey
  pub is_signer : Bool
  pub is_writable : Bool
