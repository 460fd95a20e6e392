-- ===== src/Program/Kinds.antt =====
-- What the reads of an account establish of its kind, given that the program's accounts are sound.
use entros_governance_plugin.Base.{◌≡◌, ◌≢◌, sym, ◌∙◌, some, Bytes, take}
use entros_governance_plugin.Error.{ok, ok_or-eq-ok}
use entros_governance_plugin.Solana.{Pubkey, Accounts}
use entros_governance_plugin.Addin
use entros_governance_plugin.State.Registrar.{Registrar}
use entros_governance_plugin.Runtime.{Runtime, Borsh}
use entros_governance_plugin.Governance.{
  voter_weight_record, max_voter_weight_record, try_deserialize_unchecked,
}
use entros_governance_plugin.Instructions.Attributes.Access.{Holds}
use entros_governance_plugin.Program.Slots.{
  IsRecordAt, IsMaxAt, Slot, registrar_slot, record_slot, max_slot,
}
use entros_governance_plugin.Program.Calls.{RegistrarAt}

-- The three account types begin with their discriminators, which differ: Anchor reads a registrar
-- behind its own only, and Borsh reads the first eight bytes of a record into its first field.
pub record IsDiscriminated (rt : Runtime) : Type 0 where
  pub registrar_discriminator : Bytes
  pub registrar_first :
      (bs : Bytes) (r : Registrar)
      → rt.registrar.try_deserialize bs ≡ ok r
      → take 8 bs ≡ registrar_discriminator
  pub record_first :
      (bs : Bytes) (v : Addin.VoterWeightRecord)
      → rt.borsh_voter_weight_record.deserialize bs ≡ some v
      → v.account_discriminator ≡ take 8 bs
  pub max_first :
      (bs : Bytes) (m : Addin.MaxVoterWeightRecord)
      → rt.borsh_max_voter_weight_record.deserialize bs ≡ some m
      → m.account_discriminator ≡ take 8 bs
  pub registrar_record : registrar_discriminator ≢ rt.voter_weight_record_discriminator
  pub registrar_max : registrar_discriminator ≢ rt.max_voter_weight_record_discriminator
  pub record_max : rt.voter_weight_record_discriminator ≢ rt.max_voter_weight_record_discriminator

-- The data of an account begins with the given discriminator.
abbrev pub IsTagged : Bytes → Accounts → Pubkey → Type 0
IsTagged discriminator accounts key = take 8 (accounts key).contents ≡ discriminator

deserialized :
    {A : Type 0} (b : Borsh A) (bs : Bytes) (a : A)
    → try_deserialize_unchecked b bs ≡ ok a
    → b.deserialize bs ≡ some a
unfolding try_deserialize_unchecked
deserialized b bs a e = ok_or-eq-ok (b.deserialize bs) _ e

module _ {rt : Runtime} (tags : IsDiscriminated rt) {accounts : Accounts} {key : Pubkey} where
  record_tag :
      (v : Addin.VoterWeightRecord)
      → Holds (voter_weight_record rt) accounts key v
      → v.account_discriminator ≡ take 8 (accounts key).contents
  record_tag v h = tags.record_first _ v (deserialized rt.borsh_voter_weight_record _ v h.reads)

  max_tag :
      (m : Addin.MaxVoterWeightRecord)
      → Holds (max_voter_weight_record rt) accounts key m
      → m.account_discriminator ≡ take 8 (accounts key).contents
  max_tag m h = tags.max_first _ m (deserialized rt.borsh_max_voter_weight_record _ m h.reads)

  -- What is read as a registrar is one.
  pub Holds-RegistrarAt :
      (r : Registrar)
      → Holds rt.registrar accounts key r
      → Slot rt accounts key
      → RegistrarAt rt accounts key
  Holds-RegistrarAt r held (registrar_slot r' h) = (r', h)
  Holds-RegistrarAt r held (record_slot v h tag) = absurd (
      tags.registrar_record
        (sym (tags.registrar_first _ r held.reads) ∙ sym (record_tag v h.held) ∙ tag))
  Holds-RegistrarAt r held (max_slot m h tag) = absurd (
      tags.registrar_max (sym (tags.registrar_first _ r held.reads) ∙ sym (max_tag m h.held) ∙ tag))

  -- What begins with the discriminator of a voter's record is one.
  pub IsTagged-RecordAt :
      IsTagged rt.voter_weight_record_discriminator accounts key
      → Slot rt accounts key
      → (v : Addin.VoterWeightRecord) × IsRecordAt rt accounts key v
        × (v.account_discriminator ≡ rt.voter_weight_record_discriminator)
  IsTagged-RecordAt e (registrar_slot r h) =
      absurd (tags.registrar_record (sym (tags.registrar_first _ r h.held.reads) ∙ e))
  IsTagged-RecordAt e (record_slot v h tag) = (v, h, tag)
  IsTagged-RecordAt e (max_slot m h tag) =
      absurd (tags.record_max (sym e ∙ sym (max_tag m h.held) ∙ tag))

  -- And so for a max voter weight record.
  pub IsTagged-MaxAt :
      IsTagged rt.max_voter_weight_record_discriminator accounts key
      → Slot rt accounts key
      → (m : Addin.MaxVoterWeightRecord) × IsMaxAt rt accounts key m
        × (m.account_discriminator ≡ rt.max_voter_weight_record_discriminator)
  IsTagged-MaxAt e (registrar_slot r h) =
      absurd (tags.registrar_max (sym (tags.registrar_first _ r h.held.reads) ∙ e))
  IsTagged-MaxAt e (record_slot v h tag) =
      absurd (tags.record_max (sym tag ∙ record_tag v h.held ∙ e))
  IsTagged-MaxAt e (max_slot m h tag) = (m, h, tag)
