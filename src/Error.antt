-- ===== src/Error.antt =====
-- programs/entros-voter-weight/src/error.rs, and the results of the handlers: the program's own
-- errors, the framework's error codes, and what a called program or the runtime reports.
use entros_governance_plugin.Base.{
  ℕ, ◌≡◌, refl, ap, subst, ◌∙◌, ◌⊎◌, inl, inr, Bool, true, false, Option, none, some,
}

-- `EntrosVoterError`, in the order of the source.
pub data EntrosVoterError : Type 0 where
  invalid_realm_authority : EntrosVoterError
  missing_identity_account : EntrosVoterError
  invalid_identity_pda : EntrosVoterError
  invalid_identity_owner : EntrosVoterError
  invalid_identity_data : EntrosVoterError
  insufficient_trust_score : EntrosVoterError
  verification_expired : EntrosVoterError
  voter_weight_record_realm_mismatch : EntrosVoterError
  voter_weight_record_mint_mismatch : EntrosVoterError
  voter_weight_record_owner_mismatch : EntrosVoterError
  realm_has_no_authority : EntrosVoterError
  governing_token_owner_signer_mismatch : EntrosVoterError
  invalid_max_verification_age : EntrosVoterError
  invalid_max_voter_weight : EntrosVoterError
  invalid_weight_action_target : EntrosVoterError

-- The codes of `anchor_lang::error::ErrorCode` that the attributes and the wrappers can raise.
pub data ErrorCode : Type 0 where
  account_not_signer account_not_initialized account_owned_by_wrong_program : ErrorCode
  account_did_not_deserialize account_did_not_serialize : ErrorCode
  invalid_program_id invalid_program_executable : ErrorCode
  constraint_mut constraint_raw constraint_owner constraint_executable : ErrorCode
  constraint_seeds constraint_close : ErrorCode

-- `program n` is an error of a called program or of the runtime; `panicked` is a Rust panic.
pub data Error : Type 0 where
  entros : EntrosVoterError → Error
  anchor : ErrorCode → Error
  program : ℕ → Error
  panicked : Error

pub data Result {ℓ} (A : Type ℓ) : Type ℓ where
  ok : A → Result A
  err : Error → Result A

-- `require!(test, error)`.
abbrev pub require : (test : Bool) → Error → Result (Unit {0})
require false failure = err failure
require true _ = ok tt

-- `option.ok_or(error)`.
abbrev pub ok_or {ℓ} : {A : Type ℓ} → Option A → Error → Result A
ok_or (some a) _ = ok a
ok_or none failure = err failure

-- `?` and the sequence of statements: an error ends the handler.
infixl 5 ◌>>=◌
abbrev pub ◌>>=◌ {ℓ κ} :
    {A : Type ℓ} {B : Type κ} (step : Result A) (next : A → Result B) → Result B
err failure >>= next = err failure
ok a >>= next = next a

infixl 5 ◌>>◌
abbrev pub ◌>>◌ {ℓ} : {B : Type ℓ} (checked : Result (Unit {0})) (next : Result B) → Result B
checked >> next = checked >>= λ _. next

-- Inversion of a chain, step by step: a goal that holds for every value that the step can have
-- given, and for a guard that was passed, holds.
pub >>=-inv {ℓ κ μ} :
    {A : Type ℓ} {B : Type κ} {C : Type μ} (m : Result A) {f : A → Result B} {b : B}
    → (m >>= f) ≡ ok b
    → ((a : A) → m ≡ ok a → f a ≡ ok b → C)
    → C
>>=-inv (ok a) h k = k a refl h
>>=-inv (err e) h k = absurd (cc)

-- A step whose value is known.
pub >>=-at {ℓ κ} :
    {A : Type ℓ} {B : Type κ} (m : Result A) (f : A → Result B) {b : B} (a : A)
    → (m >>= f) ≡ ok b
    → ((x : A) → m ≡ ok x → x ≡ a)
    → (m ≡ ok a) × (f a ≡ ok b)
>>=-at m f {b} a h known =
    >>=-inv m h λ x e rest. (e ∙ ap ok (known x e), subst (λ y. f y ≡ ok b) (known x e) rest)

pub require-inv {ℓ κ} :
    {B : Type ℓ} {C : Type κ} (c : Bool) (e : Error) {rest : Result B} {b : B}
    → (require c e >> rest) ≡ ok b
    → (c ≡ true → rest ≡ ok b → C)
    → C
require-inv true e h k = k refl h
require-inv false e h k = absurd (cc)

pub require-true : (c : Bool) (e : Error) → require c e ≡ ok tt → c ≡ true
require-true true e h = refl
require-true false e h = cc

pub ok_or-eq-ok {ℓ} :
    {A : Type ℓ} (o : Option A) (e : Error) {a : A} → ok_or o e ≡ ok a → o ≡ some a
ok_or-eq-ok none e h = cc
ok_or-eq-ok (some a) e h = cc

pub Result-cases {ℓ} :
    {A : Type ℓ} (r : Result A) → ((a : A) × (r ≡ ok a)) ⊎ ((e : Error) × (r ≡ err e))
Result-cases (ok a) = inl (a, refl)
Result-cases (err e) = inr (e, refl)

pub ok_injective {ℓ} : {A : Type ℓ} {a b : A} → ok a ≡ ok b → a ≡ b
ok_injective e = cc
