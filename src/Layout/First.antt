-- ===== src/Layout/First.antt =====
-- The first field of a record is the first eight bytes of the account.
use entros_governance_plugin.Base.{
  ◌≡◌, none, some, Option, Bytes, take, leb, length, Bool-cases, inl, inr, refl, subst, drop,
  list_eq, list_eq→eq,
}
use entros_governance_plugin.Addin
use entros_governance_plugin.Error.{ok, require-inv}
use entros_governance_plugin.State.Registrar.{Registrar}
use entros_governance_plugin.Layout.{
  read_voter_weight_record, read_max_voter_weight_record, value_of, voter_weight_record_borsh,
  max_voter_weight_record_borsh, registrar_account, try_deserialize_registrar,
}
use entros_governance_plugin.Layout.Readers.{
  Reader, ◌>>=◌, pure, read_bytes, read_uint, read_option, read_action,
}

-- Every value that a reader finds has a property.
record Finds {ℓ κ} {A : Type ℓ} (P : A → Type κ) (r : Reader A) : Type (ℓ ⊔ κ) where
  found : (bs : Bytes) (a : A) → value_of (r bs) ≡ some a → P a

chained {ℓ κ μ} :
    {A : Type ℓ} {B : Type κ} {P : B → Type μ} (f : A → Reader B) (b : B)
    → ((a : A) → Finds P (f a))
    → (read : Option (A × Bytes))
    → value_of (elim read [ none ↦ none | some (a, rest) ↦ f a rest ]) ≡ some b
    → P b
chained f b h none e = absurd (cc)
chained f b h (some (a, rest)) e = (h a).found rest b e

Finds->>= {ℓ κ μ} :
    {A : Type ℓ} {B : Type κ} {P : B → Type μ} (m : Reader A) {f : A → Reader B}
    → ((a : A) → Finds P (f a))
    → Finds P (m >>= f)
Finds->>= m {f} h = record { found = λ bs b e. chained f b h (m bs) e }

some_injective {ℓ} : {A : Type ℓ} {a b : A} → some a ≡ some b → a ≡ b
some_injective e = cc

Finds-pure {ℓ κ} : {A : Type ℓ} {P : A → Type κ} {a : A} → P a → Finds P (pure a)
Finds-pure {P} h = record { found = λ bs b e. subst P (some_injective e) h }

-- A reader that starts with eight bytes, and whose values all have them.
first_eight {ℓ κ} :
    {A : Type ℓ} {P : Bytes → A → Type κ} {f : Bytes → Reader A}
    → ((d : Bytes) → Finds (P d) (f d))
    → (bs : Bytes) (a : A) → value_of ((read_bytes 8 >>= f) bs) ≡ some a
    → P (take 8 bs) a
unfolding read_bytes
first_eight h bs a e = elim (Bool-cases (leb 8 (length bs))) [
  | inl long ↦ (h (take 8 bs)).found (drop 8 bs) a (rw (long, value_of) at e)
  | inr short ↦ absurd (cc (rw (short, value_of) at e))
]

-- The first field of a voter's record.
pub account_discriminator-take :
    (bs : Bytes) (v : Addin.VoterWeightRecord)
    → voter_weight_record_borsh.deserialize bs ≡ some v
    → v.account_discriminator ≡ take 8 bs
unfolding read_voter_weight_record
account_discriminator-take bs v e =
    first_eight {P = λ d (u : Addin.VoterWeightRecord). u.account_discriminator ≡ d}
      (λ d. Finds->>= (read_uint 32) (λ _. Finds->>= (read_uint 32) (λ _.
        Finds->>= (read_uint 32) (λ _. Finds->>= (read_uint 8) (λ _.
          Finds->>= (read_option (read_uint 8)) (λ _. Finds->>= (read_option read_action) (λ _.
            Finds->>= (read_option (read_uint 32))
              (λ _. Finds->>= (read_bytes 8) (λ _. Finds-pure refl)))))))))
      bs v e

-- The first field of a max voter weight record.
pub max_account_discriminator-take :
    (bs : Bytes) (m : Addin.MaxVoterWeightRecord)
    → max_voter_weight_record_borsh.deserialize bs ≡ some m
    → m.account_discriminator ≡ take 8 bs
unfolding read_max_voter_weight_record
max_account_discriminator-take bs m e =
    first_eight {P = λ d (u : Addin.MaxVoterWeightRecord). u.account_discriminator ≡ d}
      (λ d. Finds->>= (read_uint 32) (λ _. Finds->>= (read_uint 32) (λ _.
        Finds->>= (read_uint 8) (λ _.
          Finds->>= (read_option (read_uint 8))
            (λ _. Finds->>= (read_bytes 8) (λ _. Finds-pure refl))))))
      bs m e

-- A registrar is read behind its discriminator.
pub registrar_account-take :
    (discriminator bs : Bytes) (r : Registrar)
    → (registrar_account discriminator).try_deserialize bs ≡ ok r
    → take 8 bs ≡ discriminator
unfolding try_deserialize_registrar
registrar_account-take discriminator bs r e =
    require-inv (list_eq (take 8 bs) discriminator) _ e
      λ same _. list_eq→eq (take 8 bs) discriminator same
