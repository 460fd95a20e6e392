-- ===== src/Instructions/UpdateVoterWeightRecord/Eligibility.antt =====
-- When a voter is eligible, and why one is refused, stated of the bytes and the clock.
use entros_governance_plugin.Base.{
  [], ◌∷◌, to_le_bytes, ◌^◌, ◌≤◌, ◌<◌, ◌≡◌, ◌≢◌, List, none, some, AllBytes, head?, ℤ, pos, ◌+ℤ◌,
  ◌≤ℤ◌, ◌<ℤ◌, IsI64,
}
use entros_governance_plugin.Error.{
  Result, Error, ok, err, entros, missing_identity_account, invalid_identity_pda,
  invalid_identity_owner, invalid_identity_data, insufficient_trust_score, verification_expired,
  voter_weight_record_owner_mismatch,
}
use entros_governance_plugin.Solana.{Pubkey, Bank, Clock, AccountMeta}
use entros_governance_plugin.Addin.{VoterWeightRecord}
use entros_governance_plugin.State.Registrar.{Registrar}
use entros_governance_plugin.Runtime.{Runtime}
use entros_governance_plugin.Instructions.UpdateVoterWeightRecord.Identity.{
  entros_anchor_program_id,
}
use entros_governance_plugin.Instructions.UpdateVoterWeightRecord.Parse.{
  IsIdentityState, trust_score_at, timestamp_at,
}

-- What the theorems take for granted of the machine: bytes are below 256, the configured age and
-- the clock are `i64`, the slot is a `u64`, and the clock is not before 1970.
pub record IsMachine (registrar : Registrar) (bank : Bank) : Type 0 where
  pub bytes : (k : Pubkey) → AllBytes (bank.accounts k).contents
  pub age : IsI64 registrar.max_verification_age
  pub clock_i64 : (clock : Clock) → bank.clock ≡ ok clock → IsI64 clock.unix_timestamp
  pub slot_u64 : (clock : Clock) → bank.clock ≡ ok clock → clock.slot < 2 ^ 64
  pub clock_pos : (clock : Clock) → bank.clock ≡ ok clock → pos 0 ≤ℤ clock.unix_timestamp

module _ (rt : Runtime) (registrar : Registrar) (record_of_voter : VoterWeightRecord)
    (voter : Pubkey) (remaining_accounts : List AccountMeta) (bank : Bank) where
  -- The address of the Entros Anchor program with the seeds b"identity" and the voter's 32 bytes.
  abbrev pub identity_address : Pubkey
  identity_address =
      (rt.find_program_address
        ((105 ∷ 100 ∷ 101 ∷ 110 ∷ 116 ∷ 105 ∷ 116 ∷ 121 ∷ []) ∷ to_le_bytes 32 voter ∷ [])
        entros_anchor_program_id).0

  -- The voter owns the record, and the given account, the first of the remaining ones, is the
  -- voter's IdentityState: at its derived address, of the Entros Anchor program, with score enough.
  pub record IsIdentified (identity : AccountMeta) : Type 0 where
    pub owns : record_of_voter.governing_token_owner ≡ voter
    pub first : head? remaining_accounts ≡ some identity
    pub owned : (bank.accounts identity.key).owner ≡ entros_anchor_program_id
    pub derived : identity.key ≡ identity_address
    pub typed : IsIdentityState (bank.accounts identity.key).contents
    pub trusted : registrar.min_trust_score ≤ trust_score_at (bank.accounts identity.key).contents

  -- The end of the time for which the verification counts.
  abbrev pub deadline : AccountMeta → ℤ
  deadline identity =
      timestamp_at (bank.accounts identity.key).contents +ℤ registrar.max_verification_age

  -- A voter that is identified, by a verification that has not run out.
  pub record IsEligible (clock : Clock) : Type 0 where
    pub identity : AccountMeta
    pub identified : IsIdentified identity
    pub timed : bank.clock ≡ ok clock
    pub recent : clock.unix_timestamp <ℤ deadline identity

  -- Why a voter is refused: a check that fails, and the error that it gives.
  pub data Refusal : Error → Type 0 where
    other_owner :
        record_of_voter.governing_token_owner ≢ voter
        → Refusal (entros voter_weight_record_owner_mismatch)
    no_identity : head? remaining_accounts ≡ none → Refusal (entros missing_identity_account)
    foreign :
        (identity : AccountMeta)
        → head? remaining_accounts ≡ some identity
        → (bank.accounts identity.key).owner ≢ entros_anchor_program_id
        → Refusal (entros invalid_identity_owner)
    misplaced :
        (identity : AccountMeta)
        → head? remaining_accounts ≡ some identity
        → identity.key ≢ identity_address
        → Refusal (entros invalid_identity_pda)
    untyped :
        (identity : AccountMeta)
        → head? remaining_accounts ≡ some identity
        → ¬ IsIdentityState (bank.accounts identity.key).contents
        → Refusal (entros invalid_identity_data)
    distrusted :
        (identity : AccountMeta)
        → head? remaining_accounts ≡ some identity
        → trust_score_at (bank.accounts identity.key).contents < registrar.min_trust_score
        → Refusal (entros insufficient_trust_score)
    untimed : {e : Error} → bank.clock ≡ err e → Refusal e
    expired :
        (identity : AccountMeta) (clock : Clock)
        → head? remaining_accounts ≡ some identity
        → bank.clock ≡ ok clock
        → timestamp_at (bank.accounts identity.key).contents +ℤ registrar.max_verification_age
          ≤ℤ clock.unix_timestamp
        → Refusal (entros verification_expired)

  abbrev pub Outcome : Result Clock → Type 0
  Outcome (ok clock) = IsEligible clock
  Outcome (err e) = Refusal e
