-- ===== src/Layout/Readers.antt =====
-- Readers of little-endian fields, the writers that they undo, and the laws between them.
use entros_governance_plugin.Base.{
  ℕ, ◌^◌, ◌<◌, ◌≡◌, refl, Option, none, some, [], ◌∷◌, ◌++◌, Bytes, to_le_bytes, from_le_bytes,
  length-to_le_bytes, from_le_bytes-to_le_bytes, leb, le→leb, ◌==◌, if◌then◌else◌, length, take,
  drop, length-append, take-append_length, drop-append_length, arith,
}
use entros_governance_plugin.Addin
use entros_governance_plugin.Runtime.Laws.{Within}

-- A reader takes a value from the front of its input.
abbrev pub Reader {ℓ} : Type ℓ → Type ℓ
Reader A = Bytes → Option (A × Bytes)

infixl 5 ◌>>=◌
abbrev pub ◌>>=◌ {ℓ κ} : {A : Type ℓ} {B : Type κ} → Reader A → (A → Reader B) → Reader B
◌>>=◌ m f bs = elim (m bs) [ none ↦ none | some (a, rest) ↦ f a rest ]

abbrev pub pure {ℓ} : {A : Type ℓ} → A → Reader A
pure a bs = some (a, bs)

unfoldable pub read_bytes : ℕ → Reader Bytes
read_bytes n bs = if leb n (length bs) then some (take n bs, drop n bs) else none

unfoldable pub read_uint : ℕ → Reader ℕ
read_uint n bs = elim (read_bytes n bs) [
  | none ↦ none
  | some (field, rest) ↦ some (from_le_bytes field, rest)
]

-- Borsh's options: a tag byte, and the value after tag 1.
unfoldable pub read_option {ℓ} : {A : Type ℓ} → Reader A → Reader (Option A)
read_option read [] = none
read_option read (tag ∷ bs) =
    if tag == 0
    then some (none, bs)
    else if tag == 1
    then elim (read bs) [ none ↦ none | some (a, rest) ↦ some (some a, rest) ]
    else none

unfoldable pub write_option {ℓ} : {A : Type ℓ} → (A → Bytes) → Option A → Bytes
write_option write none = 0 ∷ []
write_option write (some a) = 1 ∷ write a

-- `VoterWeightAction`, one byte.
unfoldable pub action_byte : Addin.VoterWeightAction → ℕ
action_byte Addin.cast_vote = 0
action_byte Addin.comment_proposal = 1
action_byte Addin.create_governance = 2
action_byte Addin.create_proposal = 3
action_byte Addin.sign_off_proposal = 4

abbrev pub action_of_byte : ℕ → Option Addin.VoterWeightAction
action_of_byte b =
    if b == 0
    then some Addin.cast_vote
    else if b == 1
    then some Addin.comment_proposal
    else if b == 2
    then some Addin.create_governance
    else if b == 3
    then some Addin.create_proposal
    else if b == 4
    then some Addin.sign_off_proposal
    else none

unfoldable pub read_action : Reader Addin.VoterWeightAction
read_action [] = none
read_action (b ∷ bs) = elim (action_of_byte b) [ none ↦ none | some a ↦ some (a, bs) ]

pub read_bytes-append :
    (n : ℕ) (bs : Bytes)
    → length bs ≡ n
    → (rest : Bytes) → read_bytes n (bs ++ rest) ≡ some (bs, rest)
unfolding read_bytes
read_bytes-append n bs h rest = rw (
  ← h,
  le→leb (length bs) (length (bs ++ rest)) (omega (arith, length-append bs rest)),
  take-append_length bs rest,
  drop-append_length bs rest,
)

pub read_uint-append :
    (n v : ℕ)
    → v < 256 ^ n
    → (rest : Bytes) → read_uint n (to_le_bytes n v ++ rest) ≡ some (v, rest)
unfolding read_uint
read_uint-append n v h rest =
    rw (read_bytes-append n (to_le_bytes n v) (length-to_le_bytes n v) rest, read_uint)
      (rw (from_le_bytes-to_le_bytes n v h))

pub read_action-append :
    (a : Addin.VoterWeightAction) (rest : Bytes)
    → read_action (action_byte a ∷ rest) ≡ some (a, rest)
unfolding read_action action_byte
read_action-append Addin.cast_vote rest = refl
read_action-append Addin.comment_proposal rest = refl
read_action-append Addin.create_governance rest = refl
read_action-append Addin.create_proposal rest = refl
read_action-append Addin.sign_off_proposal rest = refl

pub read_option-append {ℓ} :
    {A : Type ℓ} (read : Reader A) (write : A → Bytes) (o : Option A)
    → ((a : A) (rest : Bytes) → o ≡ some a → read (write a ++ rest) ≡ some (a, rest))
    → (rest : Bytes) → read_option read (write_option write o ++ rest) ≡ some (o, rest)
unfolding read_option write_option
read_option-append read write none h rest = refl
read_option-append read write (some a) h rest = rw (h a rest refl)

-- An optional number that fits its width, if it is there.
pub read_option_uint-append :
    (n bound : ℕ) (o : Option ℕ)
    → bound ≡ 256 ^ n
    → Within (λ v. v < bound) o
    → (rest : Bytes)
    → read_option (read_uint n) (write_option (to_le_bytes n) o ++ rest) ≡ some (o, rest)
unfolding read_option write_option
read_option_uint-append n bound none e h rest = refl
read_option_uint-append n bound (some v) e h rest = rw (read_uint-append n v (omega arith) rest)
