-- ===== src/Instructions/UpdateVoterWeightRecord/Age.antt =====
-- The age of a verification: the saturated subtraction of the handler against exact integers.
use entros_governance_plugin.Base.{
  ◌≡◌, ◌↔◌, ◌⊎◌, true, false, ℤ, pos, ◌+ℤ◌, ◌≤ℤ◌, ◌<ℤ◌, ltb_ℤ, IsI64, checked_sub, +ℤ_parts,
  -ℤ_parts, arith,
}
use entros_governance_plugin.Instructions.UpdateVoterWeightRecord.Identity.{age_of}

pub ltb_ℤ_iff : (a b : ℤ) → (ltb_ℤ a b ≡ true) ↔ (a <ℤ b)
ltb_ℤ_iff a b = ground arith

pub ltb_ℤ_cases : (a b : ℤ) → ((ltb_ℤ a b ≡ true) × (a <ℤ b)) ⊎ ((ltb_ℤ a b ≡ false) × (b ≤ℤ a))
ltb_ℤ_cases a b = ground arith

pub age_of-lt :
    (now verified max_age : ℤ)
    → pos 0 ≤ℤ now
    → IsI64 now
    → IsI64 verified
    → IsI64 max_age
    → (age_of now verified <ℤ max_age) ↔ (now <ℤ verified +ℤ max_age)
unfolding age_of checked_sub
age_of-lt now verified max_age h hn hv hm = (
  λ p. ground (arith, -ℤ_parts now verified, +ℤ_parts verified max_age),
  λ p. ground (arith, -ℤ_parts now verified, +ℤ_parts verified max_age),
)

-- And where the test fails, the clock has reached the end of the allowed age.
pub age_of-le :
    (now verified max_age : ℤ)
    → pos 0 ≤ℤ now
    → IsI64 now
    → IsI64 verified
    → IsI64 max_age
    → max_age ≤ℤ age_of now verified
    → verified +ℤ max_age ≤ℤ now
unfolding age_of checked_sub
age_of-le now verified max_age h hn hv hm p =
    ground (arith, -ℤ_parts now verified, +ℤ_parts verified max_age)
