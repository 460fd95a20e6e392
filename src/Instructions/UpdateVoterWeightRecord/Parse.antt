-- ===== src/Instructions/UpdateVoterWeightRecord/Parse.antt =====
-- What the raw read of an IdentityState account returns, against the bytes at its offsets.
use native.Mathlib.Omega.{arith}
use entros_governance_plugin.Base.{
  ℕ, zero, suc, ◌-◌, ◌+◌, ◌*◌, ◌^◌, ◌≤◌, ◌<◌, ◌≡◌, refl, ap, ◌∙◌, ◌⊎◌, inl, inr, [], ◌∷◌, false,
  Bytes, AllBytes, from_le_bytes, leb, le→leb, leb→le, list_eq, list_eq_self, list_eq→eq, ==_self,
  some, Bool-cases, length, length-take_of_le, length-drop, take, drop, get_or, ℤ, IsI64,
  i64_of_pattern, i64_of_pattern-IsI64,
}
use entros_governance_plugin.Error.{ok, err, entros, invalid_identity_data}
use entros_governance_plugin.Instructions.UpdateVoterWeightRecord.Identity.{
  identity_discriminator, slice, try_into, i64_from_le_bytes, u16_from_le_bytes, parse_identity,
}

-- Byte `i` of an account's data, and the 64-bit and 16-bit little-endian numbers from byte `i` on.
abbrev pub byte_at : Bytes → ℕ → ℕ
byte_at bs i = get_or bs i 0

abbrev pub u16_at : Bytes → ℕ → ℕ
u16_at bs i = byte_at bs i + 2 ^ 8 * byte_at bs (i + 1)

abbrev pub u64_at : Bytes → ℕ → ℕ
u64_at bs i =
    byte_at bs i
    + 2 ^ 8 * byte_at bs (i + 1)
    + 2 ^ 16 * byte_at bs (i + 2)
    + 2 ^ 24 * byte_at bs (i + 3)
    + 2 ^ 32 * byte_at bs (i + 4)
    + 2 ^ 40 * byte_at bs (i + 5)
    + 2 ^ 48 * byte_at bs (i + 6)
    + 2 ^ 56 * byte_at bs (i + 7)

-- The layout of IdentityState that the program relies on.
pub record IsIdentityState (bs : Bytes) : Type 0 where
  pub long : 62 ≤ length bs
  pub typed : take 8 bs ≡ identity_discriminator

abbrev pub trust_score_at : Bytes → ℕ
trust_score_at bs = u16_at bs 60

abbrev pub timestamp_at : Bytes → ℤ
timestamp_at bs = i64_of_pattern (u64_at bs 48)

-- The first of the bytes from `i` on, and the others.
take-drop :
    (n i : ℕ) (bs : Bytes)
    → i < length bs
    → take (suc n) (drop i bs) ≡ byte_at bs i ∷ take n (drop (suc i) bs)
take-drop n i [] h = elim h [ ]
take-drop n zero (b ∷ bs) h = refl
take-drop n (suc i) (b ∷ bs) h = take-drop n i bs (omega arith)

-- Two and eight bytes, as lists and as numbers.
take_two :
    (i : ℕ) (bs : Bytes)
    → suc i < length bs
    → take 2 (drop i bs) ≡ byte_at bs i ∷ byte_at bs (suc i) ∷ []
take_two i bs h =
    take-drop 1 i bs (omega arith) ∙ ap (◌∷◌ (byte_at bs i)) (take-drop 0 (suc i) bs h)

take_four :
    (n i : ℕ) (bs : Bytes)
    → i + 3 < length bs
    → take (suc (suc (suc (suc n)))) (drop i bs)
      ≡ byte_at bs i
        ∷ byte_at bs (suc i)
        ∷ byte_at bs (suc (suc i))
        ∷ byte_at bs (suc (suc (suc i)))
        ∷ take n (drop (suc (suc (suc (suc i)))) bs)
take_four n i bs h = rw (
  take-drop (suc (suc (suc n))) i bs (omega arith),
  take-drop (suc (suc n)) (suc i) bs (omega arith),
  take-drop (suc n) (suc (suc i)) bs (omega arith),
  take-drop n (suc (suc (suc i))) bs (omega arith),
)

from_le_bytes_score :
    (bs : Bytes) → 62 ≤ length bs → from_le_bytes (take 2 (drop 60 bs)) ≡ u16_at bs 60
unfolding from_le_bytes
from_le_bytes_score bs h = rw (take_two 60 bs (omega arith)) (omega arith)

from_le_bytes_timestamp :
    (bs : Bytes) → 62 ≤ length bs → from_le_bytes (take 8 (drop 48 bs)) ≡ u64_at bs 48
unfolding from_le_bytes
from_le_bytes_timestamp bs h =
    rw (take_four 4 48 bs (omega arith), take_four 0 52 bs (omega arith)) (omega arith)

slice_lem :
    (start stop : ℕ) (bs : Bytes)
    → stop ≤ length bs
    → slice start stop bs ≡ ok (take (stop - start) (drop start bs))
unfolding slice
slice_lem start stop bs h = rw (le→leb stop (length bs) h)

try_into-take :
    (n start : ℕ) (bs : Bytes)
    → start + n ≤ length bs
    → try_into n (take n (drop start bs)) ≡ some (take n (drop start bs))
unfolding try_into
try_into-take n start bs h =
    rw (length-take_of_le n (drop start bs) (omega (arith, length-drop start bs)), ==_self n)

-- A long enough account with the right discriminator is read at its offsets.
pub parse_identity_ok :
    (bs : Bytes) → IsIdentityState bs → parse_identity bs ≡ ok (timestamp_at bs, trust_score_at bs)
unfolding parse_identity i64_from_le_bytes u16_from_le_bytes
parse_identity_ok bs h = rw (
  le→leb 62 (length bs) h.long,
  slice_lem 0 8 bs (omega arith),
  h.typed,
  slice_lem 48 56 bs (omega arith),
  try_into-take 8 48 bs (omega arith),
  slice_lem 60 62 bs (omega arith),
  try_into-take 2 60 bs (omega arith),
  from_le_bytes_timestamp bs h.long,
  from_le_bytes_score bs h.long,
)

-- Any other account is refused as invalid data: no read is out of bounds.
pub parse_identity_refused :
    (bs : Bytes) → ¬ IsIdentityState bs → parse_identity bs ≡ err (entros invalid_identity_data)
unfolding parse_identity
parse_identity_refused bs h = elim (Bool-cases (leb 62 (length bs))) [
  | inr short ↦ rw short
  | inl long ↦ elim (Bool-cases (list_eq (take 8 bs) identity_discriminator)) [
    | inr other ↦ rw (long, slice_lem 0 8 bs (omega (arith, leb→le 62 (length bs) long)), other)
    | inl typed ↦ absurd (
        h (record {
          long = leb→le 62 (length bs) long;
          typed = list_eq→eq (take 8 bs) identity_discriminator typed;
        }))
  ]
]

-- Which of the two holds can be decided.
pub IsIdentityState-cases : (bs : Bytes) → IsIdentityState bs ⊎ (¬ IsIdentityState bs)
IsIdentityState-cases bs = elim (Bool-cases (leb 62 (length bs))) [
  | inr short ↦ inr (λ h. ground (arith, h.long))
  | inl long ↦ elim (Bool-cases (list_eq (take 8 bs) identity_discriminator)) [
    | inr other ↦ inr (λ h. typed_not_other h.typed other)
    | inl typed ↦ inl (record {
      long = leb→le 62 (length bs) long;
      typed = list_eq→eq (take 8 bs) identity_discriminator typed;
    })
  ]
]
  where
    typed_not_other :
        take 8 bs ≡ identity_discriminator → list_eq (take 8 bs) identity_discriminator ≡ false → ⊥
    typed_not_other e n = cc (
      ap (λ (t : Bytes). list_eq t identity_discriminator) e,
      list_eq_self identity_discriminator,
    )

-- The data of an account is read at the offsets of an IdentityState where it has that layout, and
-- is refused as invalid otherwise; no read is out of bounds, whatever the data.
pub parse_identity_outcome :
    (bs : Bytes)
    → (IsIdentityState bs × (parse_identity bs ≡ ok (timestamp_at bs, trust_score_at bs)))
      ⊎ ((¬ IsIdentityState bs) × (parse_identity bs ≡ err (entros invalid_identity_data)))
parse_identity_outcome bs = elim (IsIdentityState-cases bs) [
  | inl h ↦ inl (h, parse_identity_ok bs h)
  | inr h ↦ inr (h, parse_identity_refused bs h)
]

-- The timestamp of an account of bytes is an `i64`.
byte_at-lt : (bs : Bytes) (i : ℕ) → AllBytes bs → byte_at bs i < 256
byte_at-lt [] i h = omega arith
byte_at-lt (b ∷ bs) zero h = h.0
byte_at-lt (b ∷ bs) (suc i) h = byte_at-lt bs i h.1

pub timestamp_at-IsI64 : (bs : Bytes) → AllBytes bs → IsI64 (timestamp_at bs)
timestamp_at-IsI64 bs h = i64_of_pattern-IsI64 (u64_at bs 48) (
    omega (
      arith,
      byte_at-lt bs 48 h,
      byte_at-lt bs 49 h,
      byte_at-lt bs 50 h,
      byte_at-lt bs 51 h,
      byte_at-lt bs 52 h,
      byte_at-lt bs 53 h,
      byte_at-lt bs 54 h,
      byte_at-lt bs 55 h,
    ))
