-- ===== src/Instructions/UpdateVoterWeightRecord/Identity.antt =====
-- programs/entros-voter-weight/src/instructions/update_voter_weight_record.rs, down to
-- `verify_voter_identity_and_recency`: the raw read of the voter's IdentityState account.
use entros_governance_plugin.Base.{
  ℕ, ◌+◌, ◌-◌, List, [], ◌∷◌, Option, none, some, Bytes, bytes, from_le_bytes, leb, ◌==◌,
  if◌then◌else◌, length, take, drop, head?, list_eq, ℤ, ltb_ℤ, i64_max, checked_sub, i64_of_pattern,
}
use entros_governance_plugin.Error.{
  Result, ok, err, ◌>>=◌, ◌>>◌, require, ok_or, entros, panicked, missing_identity_account,
  invalid_identity_pda, invalid_identity_owner, invalid_identity_data, insufficient_trust_score,
  verification_expired, voter_weight_record_owner_mismatch,
}
use entros_governance_plugin.Solana.{Pubkey, as_ref, Bank, Clock, AccountMeta}
use entros_governance_plugin.Addin.{VoterWeightRecord}
use entros_governance_plugin.State.Registrar.{Registrar}
use entros_governance_plugin.Runtime.{Runtime}

-- `ENTROS_ANCHOR_PROGRAM_ID`.
unfoldable pub entros_anchor_program_id : Pubkey
unfolding from_le_bytes
entros_anchor_program_id = from_le_bytes (
    0xe7 ∷ 0x36 ∷ 0x00 ∷ 0xda ∷ 0x70 ∷ 0x7e ∷ 0xbf ∷ 0x19 ∷ 0x90 ∷ 0x7d ∷ 0x32 ∷ 0xec ∷ 0x88 ∷ 0x42
    ∷ 0xa4 ∷ 0x5f ∷ 0xb4 ∷ 0xd5 ∷ 0x32 ∷ 0x63 ∷ 0xa1 ∷ 0x49 ∷ 0x68 ∷ 0x01 ∷ 0x6d ∷ 0xb4 ∷ 0xe6
    ∷ 0x29 ∷ 0x37 ∷ 0xe0 ∷ 0x93 ∷ 0xd1 ∷ [])

abbrev pub identity_last_verification_offset : ℕ
identity_last_verification_offset = 48

abbrev pub identity_trust_score_offset : ℕ
identity_trust_score_offset = 60

abbrev pub identity_min_data_len : ℕ
identity_min_data_len = 62

abbrev pub identity_discriminator : Bytes
identity_discriminator = 156 ∷ 32 ∷ 87 ∷ 93 ∷ 52 ∷ 155 ∷ 248 ∷ 207 ∷ []

-- `data[start..end]`, which panics past the end.
unfoldable pub slice : ℕ → ℕ → Bytes → Result Bytes
slice start stop buffer =
    if leb stop (length buffer) then ok (take (stop - start) (drop start buffer)) else err panicked

-- `.try_into()` from a slice to an array of the given length.
unfoldable pub try_into : ℕ → Bytes → Option Bytes
try_into n bs = if length bs == n then some bs else none

-- `i64::from_le_bytes` and `u16::from_le_bytes`.
unfoldable pub i64_from_le_bytes : Bytes → ℤ
i64_from_le_bytes bs = i64_of_pattern (from_le_bytes bs)

unfoldable pub u16_from_le_bytes : Bytes → ℕ
u16_from_le_bytes bs = from_le_bytes bs

-- `.checked_sub(..).unwrap_or(i64::MAX)`.
unfoldable pub age_of : ℤ → ℤ → ℤ
age_of unix_timestamp last_verification_timestamp =
    elim (checked_sub unix_timestamp last_verification_timestamp) [ none ↦ i64_max | some d ↦ d ]

-- Steps 4 to 6: the timestamp and the trust score in the account's data.
unfoldable pub parse_identity : Bytes → Result (ℤ × ℕ)
parse_identity buffer = do
  require (leb identity_min_data_len (length buffer)) (entros invalid_identity_data)
  discriminator ← slice 0 8 buffer
  require (list_eq discriminator identity_discriminator) (entros invalid_identity_data)
  timestamp_slice ←
      slice identity_last_verification_offset (identity_last_verification_offset + 8) buffer
  timestamp_bytes ← ok_or (try_into 8 timestamp_slice) (entros invalid_identity_data)
  score_slice ← slice identity_trust_score_offset (identity_trust_score_offset + 2) buffer
  score_bytes ← ok_or (try_into 2 score_slice) (entros invalid_identity_data)
  ok (i64_from_le_bytes timestamp_bytes, u16_from_le_bytes score_bytes)

module _ (rt : Runtime) where
  -- `find_program_address(["identity", voter], ENTROS_ANCHOR_PROGRAM_ID)`.
  abbrev pub identity_pda : Pubkey → Pubkey
  identity_pda voter =
      (rt.find_program_address (bytes "identity" ∷ as_ref voter ∷ []) entros_anchor_program_id).0

  unfoldable pub verify_voter_identity_and_recency :
      Registrar → VoterWeightRecord → Pubkey → List AccountMeta → Bank → Result Clock
  verify_voter_identity_and_recency registrar voter_weight_record voter remaining_accounts bank = do
    require (voter_weight_record.governing_token_owner == voter)
        (entros voter_weight_record_owner_mismatch)
    identity_info ← ok_or (head? remaining_accounts) (entros missing_identity_account)
    let identity = bank.accounts identity_info.key
    require (identity.owner == entros_anchor_program_id) (entros invalid_identity_owner)
    require (identity_info.key == identity_pda voter) (entros invalid_identity_pda)
    (last_verification_timestamp, trust_score) ← parse_identity identity.contents
    require (leb registrar.min_trust_score trust_score) (entros insufficient_trust_score)
    clock ← bank.clock
    require
        (ltb_ℤ (age_of clock.unix_timestamp last_verification_timestamp)
          registrar.max_verification_age)
        (entros verification_expired)
    ok clock
