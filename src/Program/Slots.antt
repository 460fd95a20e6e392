-- ===== src/Program/Slots.antt =====
-- What the accounts of the program hold: a registrar, a voter's record or a max voter weight record,
-- each at its own address and in a state that the instructions can bring about.
use entros_governance_plugin.Base.{
  ℕ, ◌≤◌, ◌<◌, ◌≡◌, ◌≢◌, sym, subst, ◌∙◌, ◌⊎◌, inl, inr, none, some, length, ==_cases, pos, ◌<ℤ◌,
}
use entros_governance_plugin.Solana.{Pubkey, default_pubkey, Accounts}
use entros_governance_plugin.Addin
use entros_governance_plugin.State.Registrar
use entros_governance_plugin.State.Registrar.{Registrar, len}
use entros_governance_plugin.Runtime.{Runtime, AccountType}
use entros_governance_plugin.Runtime.Laws.{IsVoterWeightRecord, IsMaxVoterWeightRecord, SameData}
use entros_governance_plugin.Governance.{
  id, voter_weight_record, voter_weight_record_space, max_voter_weight_record,
  max_voter_weight_record_space,
}
use entros_governance_plugin.Instructions.Attributes.{
  address, registrar_seeds, voter_weight_record_seeds, max_voter_weight_record_seeds,
}
use entros_governance_plugin.Instructions.Attributes.Access.{Holds}

module _ (rt : Runtime) (accounts : Accounts) (key : Pubkey) where
  -- A registrar allows a positive age.
  pub record IsRegistrarAt (r : Registrar) : Type 0 where
    pub held : Holds rt.registrar accounts key r
    pub at_address : key ≡ address rt (registrar_seeds r.realm r.governing_token_mint)
    pub valid : Registrar.IsValid r
    pub room : len ≤ length (accounts key).contents
    pub positive : pos 0 <ℤ r.max_verification_age

  -- A record has no weight and is expired, or has weight 1; it is for any action and target, or for
  -- one action on one target that is not the default key.
  pub record IsRecordAt (v : Addin.VoterWeightRecord) : Type 0 where
    pub held : Holds (voter_weight_record rt) accounts key v
    pub at_address :
        key
        ≡ address rt
            (voter_weight_record_seeds v.realm v.governing_token_mint v.governing_token_owner)
    pub valid : IsVoterWeightRecord v
    pub room : voter_weight_record_space ≤ length (accounts key).contents
    pub weight :
        ((v.voter_weight ≡ 0) × (v.voter_weight_expiry ≡ some 0))
        ⊎ ((v.voter_weight ≡ 1) × ((e : ℕ) × (v.voter_weight_expiry ≡ some e)))
    pub scope :
        ((v.weight_action ≡ none) × (v.weight_action_target ≡ none))
        ⊎ ((a : Addin.VoterWeightAction) × (t : Pubkey) × (v.weight_action ≡ some a)
            × (v.weight_action_target ≡ some t)
            × (t ≢ default_pubkey))

  -- A max voter weight record has no weight and is expired, or has a positive weight and no expiry.
  pub record IsMaxAt (m : Addin.MaxVoterWeightRecord) : Type 0 where
    pub held : Holds (max_voter_weight_record rt) accounts key m
    pub at_address : key ≡ address rt (max_voter_weight_record_seeds m.realm m.governing_token_mint)
    pub valid : IsMaxVoterWeightRecord m
    pub room : max_voter_weight_record_space ≤ length (accounts key).contents
    pub weight :
        ((m.max_voter_weight ≡ 0) × (m.max_voter_weight_expiry ≡ some 0))
        ⊎ ((0 < m.max_voter_weight) × (m.max_voter_weight_expiry ≡ none))

  pub data Slot : Type 0 where
    registrar_slot : (r : Registrar) → IsRegistrarAt r → Slot
    record_slot :
        (v : Addin.VoterWeightRecord)
        → IsRecordAt v
        → v.account_discriminator ≡ rt.voter_weight_record_discriminator
        → Slot
    max_slot :
        (m : Addin.MaxVoterWeightRecord)
        → IsMaxAt m
        → m.account_discriminator ≡ rt.max_voter_weight_record_discriminator
        → Slot

-- Every account of the program is in such a state.
abbrev pub IsSound : Runtime → Accounts → Type 0
IsSound rt accounts = (key : Pubkey) → (accounts key).owner ≡ id → Slot rt accounts key

Holds-same :
    {A : Type 0} {t : AccountType A} {before after : Accounts} {key : Pubkey} {a : A}
    → SameData (after key) (before key)
    → Holds t before key a
    → Holds t after key a
Holds-same same h = record { owned = same.0 ∙ h.owned; reads = rw same.1 h.reads }

module _ {rt : Runtime} {before after : Accounts} where
  -- A slot depends on the account's owner and data only.
  pub Slot-same :
      (key : Pubkey) → SameData (after key) (before key) → Slot rt before key → Slot rt after key
  Slot-same key same (registrar_slot r h) = registrar_slot r (record {
    held = Holds-same same h.held;
    at_address = h.at_address;
    valid = h.valid;
    room = rw same.1 h.room;
    positive = h.positive;
  })
  Slot-same key same (record_slot v h tag) =
      record_slot v
        (record {
          held = Holds-same same h.held;
          at_address = h.at_address;
          valid = h.valid;
          room = rw same.1 h.room;
          weight = h.weight;
          scope = h.scope;
        })
        tag
  Slot-same key same (max_slot m h tag) =
      max_slot m
        (record {
          held = Holds-same same h.held;
          at_address = h.at_address;
          valid = h.valid;
          room = rw same.1 h.room;
          weight = h.weight;
        })
        tag

  -- One slot is new, and all other accounts have the same data.
  pub change-IsSound :
      (key : Pubkey)
      → Slot rt after key
      → ((k : Pubkey) → k ≢ key → SameData (after k) (before k))
      → IsSound rt before
      → IsSound rt after
  change-IsSound key slot others sound k owned = elim (==_cases k key) [
    | inl (_, here) ↦ subst (Slot rt after) (sym here) slot
    | inr (_, other) ↦ let same = others k other in Slot-same k same (sound k (sym same.0 ∙ owned))
  ]

  -- One account is given up, and all other accounts have the same data.
  pub close-IsSound :
      (key : Pubkey)
      → (after key).owner ≢ id
      → ((k : Pubkey) → k ≢ key → SameData (after k) (before k))
      → IsSound rt before
      → IsSound rt after
  close-IsSound key released others sound k owned = elim (==_cases k key) [
    | inl (_, here) ↦ absurd (released (subst (λ j. (after j).owner ≡ id) here owned))
    | inr (_, other) ↦ let same = others k other in Slot-same k same (sound k (sym same.0 ∙ owned))
  ]
