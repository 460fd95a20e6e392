-- ===== src/Layout/RoundTrip.antt =====
-- Reading after writing, for the three account layouts.
use mathlib.Core.List.{append_assoc}
use entros_governance_plugin.Base.{
  ◌^◌, ◌≡◌, refl, Option, some, [], ◌∷◌, ◌++◌, Bytes, pattern_of_i64, pattern_of_i64-lt,
  i64_of_pattern-pattern_of_i64,
}
use entros_governance_plugin.Addin
use entros_governance_plugin.State.Registrar
use entros_governance_plugin.State.Registrar.{Registrar}
use entros_governance_plugin.Runtime.Laws.{IsVoterWeightRecord, IsMaxVoterWeightRecord}
use entros_governance_plugin.Layout.{
  serialize_voter_weight_record, read_voter_weight_record, serialize_max_voter_weight_record,
  read_max_voter_weight_record, serialize_registrar, read_registrar,
}
use entros_governance_plugin.Layout.Readers.{
  read_bytes-append, read_uint-append, read_action-append, read_option-append,
  read_option_uint-append, ◌>>=◌, read_option, read_action, write_option, action_byte,
}

read_option_action-append :
    (o : Option Addin.VoterWeightAction) (rest : Bytes)
    → read_option read_action (write_option (λ a. action_byte a ∷ []) o ++ rest) ≡ some (o, rest)
read_option_action-append o =
    read_option-append read_action (λ a. action_byte a ∷ []) o λ a rest _. read_action-append a rest

-- A voter weight record is read back from its bytes, whatever follows them.
pub read-serialize_voter_weight_record :
    (v : Addin.VoterWeightRecord) (rest : Bytes)
    → IsVoterWeightRecord v
    → read_voter_weight_record (serialize_voter_weight_record v ++ rest) ≡ some (v, rest)
unfolding read_voter_weight_record serialize_voter_weight_record
read-serialize_voter_weight_record v rest h = simp append_assoc (
    rw (
      ◌>>=◌,
      read_bytes-append 8 v.account_discriminator h.discriminator_8,
      read_uint-append 32 v.realm h.realm_key,
      read_uint-append 32 v.governing_token_mint h.mint_key,
      read_uint-append 32 v.governing_token_owner h.owner_key,
      read_uint-append 8 v.voter_weight h.weight_u64,
      read_option_uint-append 8 (2 ^ 64) v.voter_weight_expiry refl h.expiry_u64,
      read_option_action-append v.weight_action,
      read_option_uint-append 32 (2 ^ 256) v.weight_action_target refl h.target_key,
      read_bytes-append 8 v.reserved h.reserved_8,
    ))

-- So is a max voter weight record.
pub read-serialize_max_voter_weight_record :
    (m : Addin.MaxVoterWeightRecord) (rest : Bytes)
    → IsMaxVoterWeightRecord m
    → read_max_voter_weight_record (serialize_max_voter_weight_record m ++ rest) ≡ some (m, rest)
unfolding read_max_voter_weight_record serialize_max_voter_weight_record
read-serialize_max_voter_weight_record m rest h = simp append_assoc (
    rw (
      ◌>>=◌,
      read_bytes-append 8 m.account_discriminator h.discriminator_8,
      read_uint-append 32 m.realm h.realm_key,
      read_uint-append 32 m.governing_token_mint h.mint_key,
      read_uint-append 8 m.max_voter_weight h.weight_u64,
      read_option_uint-append 8 (2 ^ 64) m.max_voter_weight_expiry refl h.expiry_u64,
      read_bytes-append 8 m.reserved h.reserved_8,
    ))

-- And a registrar.
pub read-serialize_registrar :
    (r : Registrar) (rest : Bytes)
    → Registrar.IsValid r
    → read_registrar (serialize_registrar r ++ rest) ≡ some (r, rest)
unfolding read_registrar serialize_registrar
read-serialize_registrar r rest h = simp append_assoc (
    rw (
      ◌>>=◌,
      read_uint-append 32 r.governance_program_id h.program_key,
      read_uint-append 32 r.realm h.realm_key,
      read_uint-append 32 r.governing_token_mint h.mint_key,
      read_uint-append 2 r.min_trust_score h.score_u16,
      read_uint-append 8 (pattern_of_i64 r.max_verification_age)
          (pattern_of_i64-lt r.max_verification_age h.age_i64),
      read_bytes-append 64 r.reserved h.reserved_64,
      i64_of_pattern-pattern_of_i64 r.max_verification_age h.age_i64,
    ))
