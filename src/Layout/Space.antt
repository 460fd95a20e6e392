-- ===== src/Layout/Space.antt =====
-- The lengths of the serialised accounts against the space that their accounts are created with,
-- and the readers' value at an account of zeros: the layouts fill the interfaces of `Runtime`.
use mathlib.Core.List.{append_assoc}
use entros_governance_plugin.Base.{
  ℕ, ◌+◌, ◌≡◌, refl, ap, Option, none, some, [], ◌∷◌, ◌++◌, Bytes, to_le_bytes, from_le_bytes,
  length, length-append, length-to_le_bytes, drop, replicate, list_eq_self, take-append_length,
  drop-append_length, i64_of_pattern, arith,
}
use entros_governance_plugin.Error.{ok}
use entros_governance_plugin.Addin
use entros_governance_plugin.State.Registrar
use entros_governance_plugin.State.Registrar.{Registrar, len}
use entros_governance_plugin.Runtime.Laws.{
  IsBorsh, IsAccountType, IsVoterWeightRecord, IsMaxVoterWeightRecord, zero_registrar,
  zero_voter_weight_record, zero_max_voter_weight_record,
}
use entros_governance_plugin.Governance.{voter_weight_record_space, max_voter_weight_record_space}
use entros_governance_plugin.Governance.Saved.{write_all_fits}
use entros_governance_plugin.Layout.{
  serialize_voter_weight_record, read_voter_weight_record, serialize_max_voter_weight_record,
  read_max_voter_weight_record, serialize_registrar, read_registrar, voter_weight_record_borsh,
  max_voter_weight_record_borsh, registrar_account, value_of, try_serialize_registrar,
  try_deserialize_registrar, try_deserialize_registrar_unchecked,
}
use entros_governance_plugin.Layout.Readers.{
  read_bytes, read_uint, read_option, write_option, action_byte,
}
use entros_governance_plugin.Layout.RoundTrip.{
  read-serialize_voter_weight_record, read-serialize_max_voter_weight_record,
  read-serialize_registrar,
}

-- The bytes of an optional field of the given width, after its tag.
abbrev pub width {ℓ} : {A : Type ℓ} → ℕ → Option A → ℕ
width n none = 0
width n (some a) = n

length-write_option_uint :
    (n : ℕ) (o : Option ℕ) → length (write_option (to_le_bytes n) o) ≡ 1 + width n o
unfolding write_option
length-write_option_uint n none = refl
length-write_option_uint n (some v) = omega (arith, length-to_le_bytes n v)

length-write_option_action :
    (o : Option Addin.VoterWeightAction)
    → length (write_option (λ a. action_byte a ∷ []) o) ≡ 1 + width 1 o
unfolding write_option
length-write_option_action none = refl
length-write_option_action (some a) = refl

-- A record takes 123 bytes and what its optional fields hold: 164, the space that is reserved, with
-- all of them.
pub length-serialize_voter_weight_record :
    (v : Addin.VoterWeightRecord)
    → IsVoterWeightRecord v
    → length (serialize_voter_weight_record v)
      ≡ 123
        + width 8 v.voter_weight_expiry
        + width 1 v.weight_action
        + width 32 v.weight_action_target
unfolding serialize_voter_weight_record
length-serialize_voter_weight_record v h =
    simp
      (
        length-append, length-to_le_bytes, length-write_option_uint, length-write_option_action,
        h.discriminator_8, h.reserved_8,
      )
      (omega arith)

pub length-serialize_max_voter_weight_record :
    (m : Addin.MaxVoterWeightRecord)
    → IsMaxVoterWeightRecord m
    → length (serialize_max_voter_weight_record m) ≡ 89 + width 8 m.max_voter_weight_expiry
unfolding serialize_max_voter_weight_record
length-serialize_max_voter_weight_record m h =
    simp
      (length-append, length-to_le_bytes, length-write_option_uint, h.discriminator_8, h.reserved_8)
      (omega arith)

pub length-serialize_registrar :
    (r : Registrar) → Registrar.IsValid r → length (serialize_registrar r) + 8 ≡ len
unfolding serialize_registrar len
length-serialize_registrar r h =
    simp (length-append, length-to_le_bytes, h.reserved_64) (omega arith)

read_voter_weight_record-replicate :
    voter_weight_record_borsh.deserialize (replicate voter_weight_record_space 0)
    ≡ some zero_voter_weight_record
unfolding voter_weight_record_space read_voter_weight_record read_bytes read_uint read_option
    from_le_bytes
read_voter_weight_record-replicate = refl

read_max_voter_weight_record-replicate :
    max_voter_weight_record_borsh.deserialize (replicate max_voter_weight_record_space 0)
    ≡ some zero_max_voter_weight_record
unfolding max_voter_weight_record_space read_max_voter_weight_record read_bytes read_uint
    read_option from_le_bytes
read_max_voter_weight_record-replicate = refl

registrar_initial :
    (discriminator : Bytes)
    → try_deserialize_registrar_unchecked discriminator (replicate len 0) ≡ ok zero_registrar
unfolding len try_deserialize_registrar_unchecked read_registrar read_bytes read_uint from_le_bytes
    i64_of_pattern
registrar_initial discriminator = refl

registrar_read_back :
    (discriminator : Bytes) (r : Registrar) (rest : Bytes)
    → length discriminator ≡ 8
    → Registrar.IsValid r
    → try_deserialize_registrar discriminator ((discriminator ++ serialize_registrar r) ++ rest)
      ≡ ok r
unfolding try_deserialize_registrar try_deserialize_registrar_unchecked
registrar_read_back discriminator r rest eight valid = rw append_assoc (
    rw (
      ← eight,
      take-append_length discriminator (serialize_registrar r ++ rest),
      drop-append_length discriminator (serialize_registrar r ++ rest),
      list_eq_self discriminator,
      read-serialize_registrar r rest valid,
    ))

-- In the layout that `get_space` lists, every valid voter weight record fits that space and is read
-- back whatever follows it, and an account of zeros reads as a record of zeros.
pub voter_weight_record_borsh-IsBorsh :
    IsBorsh voter_weight_record_borsh IsVoterWeightRecord voter_weight_record_space
      zero_voter_weight_record
unfolding voter_weight_record_space
voter_weight_record_borsh-IsBorsh = record {
  length-serialize = λ v h. ground (arith, length-serialize_voter_weight_record v h);
  deserialize-serialize = λ v rest h. ap value_of (read-serialize_voter_weight_record v rest h);
  deserialize-replicate = read_voter_weight_record-replicate;
}

-- In the layout that `get_space` lists, every valid max voter weight record fits that space and is
-- read back whatever follows it, and an account of zeros reads as a record of zeros.
pub max_voter_weight_record_borsh-IsBorsh :
    IsBorsh max_voter_weight_record_borsh IsMaxVoterWeightRecord max_voter_weight_record_space
      zero_max_voter_weight_record
unfolding max_voter_weight_record_space
max_voter_weight_record_borsh-IsBorsh = record {
  length-serialize = λ m h. ground (arith, length-serialize_max_voter_weight_record m h);
  deserialize-serialize = λ m rest h. ap value_of (read-serialize_max_voter_weight_record m rest h);
  deserialize-replicate = read_max_voter_weight_record-replicate;
}

-- With a discriminator of 8 bytes, every valid registrar, its fields in the order of the struct, is
-- written into an account of `len` bytes or more, keeps the account's size and is read back, and an
-- account of zeros reads as a registrar of zeros.
pub registrar_account-IsAccountType :
    (discriminator : Bytes)
    → length discriminator ≡ 8
    → IsAccountType (registrar_account discriminator) Registrar.IsValid len zero_registrar
unfolding try_serialize_registrar try_deserialize_registrar try_deserialize_registrar_unchecked
registrar_account-IsAccountType discriminator eight = record {
  saves = λ r buffer valid room.
      let whole = discriminator ++ serialize_registrar r in
      let rest = drop (length whole) buffer in
      let fits = write_all_fits whole buffer (
        omega (
          arith,
          length-append discriminator (serialize_registrar r),
          length-serialize_registrar r valid,
        )) in
      (whole ++ rest, rw fits.0, fits.1, registrar_read_back discriminator r rest eight valid);
  initial = registrar_initial discriminator;
}
