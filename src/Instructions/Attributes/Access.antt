-- ===== src/Instructions/Attributes/Access.antt =====
-- What the shared attributes establish: an account that was loaded, an account that was created,
-- an account that was written back, and the realm's authority.
use entros_governance_plugin.Base.{
  ℕ, ◌≤◌, ◌≡◌, ◌≢◌, ◌↔◌, sym, subst, ap, ◌∙◌, true, some, List, Bytes, length, ◌==◌, ==_iff,
  ==_self, length-replicate, arith,
}
use entros_governance_plugin.Error.{
  ok, ◌>>=◌, ok_or, >>=-inv, require-inv, ok_or-eq-ok, ok_injective, require-true,
}
use entros_governance_plugin.Solana.{Pubkey, Accounts, Bank, AccountMeta, set, set_self, set_ne}
use entros_governance_plugin.Runtime.{Runtime, AccountType, RealmData}
use entros_governance_plugin.Runtime.Laws.{IsRuntime, IsAccountType, Created, SameData}
use entros_governance_plugin.Governance.{id}
use entros_governance_plugin.Instructions.Attributes.{
  address, load, init, exit, require_realm_authority,
}

-- An account of the program whose data reads as `value`.
pub record Holds {A : Type 0} (t : AccountType A) (accounts : Accounts) (key : Pubkey) (value : A)
    : Type 0 where
  pub owned : (accounts key).owner ≡ id
  pub reads : t.try_deserialize (accounts key).contents ≡ ok value

-- The realm is found, and its authority is the given key.
pub record HasAuthority (rt : Runtime) (program : Pubkey) (realm : AccountMeta) (mint key : Pubkey)
    (accounts : Accounts) : Type 0 where
  pub found : RealmData
  pub looked_up : rt.get_realm_data program (realm.key, accounts realm.key) mint ≡ ok found
  pub authority : found.authority ≡ some key

-- One account was overwritten, and reads as `value`.
pub record Written {A : Type 0} (t : AccountType A) (key : Pubkey) (value : A)
    (before after : Accounts) : Type 0 where
  pub reads : t.try_deserialize (after key).contents ≡ ok value
  pub kept_owner : (after key).owner ≡ (before key).owner
  pub kept_length : length (after key).contents ≡ length (before key).contents
  pub others : (k : Pubkey) → k ≢ key → after k ≡ before k

-- An account was created, and reads as `value` in the given space. No other account's owner or data has changed.
pub record Opened {A : Type 0} (t : AccountType A) (key : Pubkey) (value : A) (space : ℕ)
    (before after : Accounts) : Type 0 where
  pub unused : (before key).owner ≢ id
  pub held : Holds t after key value
  pub sized : length (after key).contents ≡ space
  pub others : (k : Pubkey) → k ≢ key → SameData (after k) (before k)

-- A created account has the room that it was created with.
pub Created-room :
    {key : Pubkey} {space : ℕ} {before created : Accounts}
    → Created key space before created
    → space ≤ length (created key).contents
Created-room {space} c = rw c.zeros (omega (arith, length-replicate {A = ℕ} space 0))

pub Created-Written :
    {A : Type 0} {t : AccountType A} {key : Pubkey} {space : ℕ} {value : A}
    {before created after : Accounts}
    → Created key space before created
    → Written t key value created after
    → Opened t key value space before after
Created-Written {space} {before} {created} {after} c w = record {
  unused = c.unused;
  held = record { owned = w.kept_owner ∙ c.owned; reads = w.reads };
  sized = w.kept_length ∙ ap length c.zeros ∙ length-replicate {A = ℕ} space 0;
  others =
      λ k other. subst (λ a. SameData a (before k)) (sym (w.others k other)) (c.others k other);
}

module _ {rt : Runtime} (laws : IsRuntime rt) where
  pub load_iff :
      {A : Type 0} (t : AccountType A) (accounts : Accounts) (m : AccountMeta) (value : A)
      → (load rt t accounts m ≡ ok value) ↔ Holds t accounts m.key value
  unfolding load
  load_iff t accounts m value = (
    λ e. >>=-inv (rt.check_account (accounts m.key)) e λ _ checked reads. record {
      owned = (laws.check_account_iff (accounts m.key)).0 checked;
      reads = reads;
    },
    λ h. rw ((laws.check_account_iff (accounts m.key)).1 h.owned, h.reads),
  )

  -- A signer of the realm's authority: the realm is found, it has an authority, and that is the
  -- account that signs.
  pub require_realm_authority_iff :
      (program : Pubkey) (realm : AccountMeta) (mint : Pubkey) (signing : AccountMeta)
      (accounts : Accounts)
      → (require_realm_authority rt program realm mint signing accounts ≡ ok tt)
        ↔ HasAuthority rt program realm mint signing.key accounts
  unfolding require_realm_authority
  require_realm_authority_iff program realm mint signing accounts = (
    λ e.
        >>=-inv (rt.get_realm_data program (realm.key, accounts realm.key) mint) e
          λ found looked_up rest. >>=-inv (ok_or found.authority _) rest λ key some_key checked.
            record {
              found = found;
              looked_up = looked_up;
              authority =
                  ok_or-eq-ok found.authority _ some_key
                  ∙ ap some ((==_iff key signing.key).0 (require-true _ _ checked));
            },
    λ h. rw (h.looked_up, h.authority, ==_self signing.key),
  )

  -- `init` succeeds only at the derived address, and gives the record of zeros in an account of
  -- zeros that the program did not own before.
  pub init_effect :
      {A : Type 0} {t : AccountType A} {IsValid : A → Type 0} {space : ℕ} {zeroed : A}
      (m : AccountMeta) (seeds : List Bytes) (payer : AccountMeta) (before : Accounts) (value : A)
      (after : Accounts)
      → IsAccountType t IsValid space zeroed
      → init rt t m seeds payer space before ≡ ok (value, after)
      → (m.key ≡ address rt seeds)
        × (value ≡ zeroed)
        × (m.is_writable ≡ true)
        × Created m.key space before after
  unfolding init
  init_effect {A} {t} {space} {zeroed} m seeds payer before value after faithful e =
      require-inv (m.key == address rt seeds) _ e λ at_address e₁.
        >>=-inv (rt.create_account payer.key m.key space before) e₁ λ created did_create e₂.
          >>=-inv (t.try_deserialize_unchecked (created m.key).contents) e₂ λ read did_read e₃.
            require-inv m.is_writable _ e₃ λ writable e₄.
              let same = ok_injective e₄ in
              let new = laws.created payer.key m.key space before created did_create in
              let blank : t.try_deserialize_unchecked (created m.key).contents ≡ ok zeroed =
                rw new.zeros faithful.initial in
              (
                (==_iff m.key (address rt seeds)).0 at_address,
                sym (ap (λ (p : A × Accounts). p.0) same) ∙ ok_injective (sym did_read ∙ blank),
                writable,
                subst (Created m.key space before) (ap (λ (p : A × Accounts). p.1) same) new,
              )

module _ {A : Type 0} {t : AccountType A} {IsValid : A → Type 0} {space : ℕ} {zeroed : A}
    (faithful : IsAccountType t IsValid space zeroed) (m : AccountMeta) (value : A)
    (accounts : Accounts) (valid : IsValid value)
    (room : space ≤ length (accounts m.key).contents) where
  -- A valid value is written back into an account with room for it.
  pub exit_saves :
      (after : Accounts) × (exit t m value accounts ≡ ok after)
      × Written t m.key value accounts after
  unfolding exit
  exit_saves =
      let (saved, wrote, same_length, reads) =
        faithful.saves value (accounts m.key).contents valid room in
      let written = record (accounts m.key) { contents = saved } in
      let self = set_self accounts m.key written in
      (
        set accounts m.key written,
        rw wrote,
        record {
          reads = rw self reads;
          kept_owner = rw self;
          kept_length = rw self same_length;
          others = λ k other. set_ne accounts m.key k written other;
        },
      )

  pub exit_effect :
      (after : Accounts) → exit t m value accounts ≡ ok after → Written t m.key value accounts after
  exit_effect after e =
      let (after', e', written) = exit_saves in
      subst (Written t m.key value accounts) (ok_injective (sym e' ∙ e)) written

  -- The same at the end of an instruction.
  pub exit_writes :
      (bank after : Bank)
      → (exit t m value accounts >>= λ a. ok (record bank { accounts = a })) ≡ ok after
      → Written t m.key value accounts after.accounts
  exit_writes bank after e = >>=-inv (exit t m value accounts) e λ a wrote done.
      subst (λ (b : Bank). Written t m.key value accounts b.accounts) (ok_injective done)
        (exit_effect a wrote)
