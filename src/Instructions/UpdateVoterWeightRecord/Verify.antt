-- ===== src/Instructions/UpdateVoterWeightRecord/Verify.antt =====
-- `verify_voter_identity_and_recency` against that description of eligibility.
use entros_governance_plugin.Base.{
  ◌≡◌, sym, subst, ◌↔◌, inl, inr, List, some, le→leb, ==_iff, ==_cases, leb_cases, Option-cases,
  head?, ltb_ℤ,
}
use entros_governance_plugin.Error.{
  Result, Error, ok, err, ◌>>=◌, ◌>>◌, Result-cases, require, entros, verification_expired,
}
use entros_governance_plugin.Solana.{Pubkey, Bank, Clock, AccountMeta}
use entros_governance_plugin.Addin.{VoterWeightRecord}
use entros_governance_plugin.State.Registrar.{Registrar}
use entros_governance_plugin.Runtime.{Runtime}
use entros_governance_plugin.Instructions.UpdateVoterWeightRecord.Identity.{
  entros_anchor_program_id, identity_pda, age_of, verify_voter_identity_and_recency,
}
use entros_governance_plugin.Instructions.UpdateVoterWeightRecord.Parse.{
  trust_score_at, timestamp_at, parse_identity_ok, parse_identity_refused, IsIdentityState-cases,
  timestamp_at-IsI64,
}
use entros_governance_plugin.Instructions.UpdateVoterWeightRecord.Age.{
  ltb_ℤ_cases, ltb_ℤ_iff, age_of-lt, age_of-le,
}
use entros_governance_plugin.Instructions.UpdateVoterWeightRecord.Eligibility.{
  IsMachine, IsIdentified, IsEligible, Refusal, Outcome, other_owner, no_identity, foreign,
  misplaced, untyped, distrusted, untimed, expired,
}

module _ (rt : Runtime) (registrar : Registrar) (record_of_voter : VoterWeightRecord)
    (voter : Pubkey) (remaining_accounts : List AccountMeta) (bank : Bank) where
  abbrev Verdict : Result Clock → Type 0
  Verdict = Outcome rt registrar record_of_voter voter remaining_accounts bank

  abbrev Eligible : Clock → Type 0
  Eligible = IsEligible rt registrar record_of_voter voter remaining_accounts bank

  abbrev Identified : AccountMeta → Type 0
  Identified = IsIdentified rt registrar record_of_voter voter remaining_accounts bank

  abbrev Refused : Error → Type 0
  Refused = Refusal rt registrar record_of_voter voter remaining_accounts bank

  -- A result with its outcome, along an equation.
  along : {r s : Result Clock} → Verdict s → r ≡ s → Verdict r
  along o e = subst Verdict (sym e) o

  refused : {r : Result Clock} {e : Error} → Refused e → r ≡ err e → Verdict r
  refused {e} h = along {s = err e} h

  passed : {r : Result Clock} {clock : Clock} → Eligible clock → r ≡ ok clock → Verdict r
  passed {clock} h = along {s = ok clock} h

  -- The checks from the clock on.
  clock_outcome :
      (identity : AccountMeta)
      → IsMachine registrar bank
      → Identified identity
      → Verdict (do
        clock ← bank.clock
        require
            (ltb_ℤ
              (age_of clock.unix_timestamp (timestamp_at (bank.accounts identity.key).contents))
              registrar.max_verification_age)
            (entros verification_expired)
        ok clock)
  clock_outcome identity m h = elim (Result-cases bank.clock) [
    | inr (e, stopped) ↦ refused (untimed stopped) (rw stopped)
    | inl (clock, timed) ↦
        let now = clock.unix_timestamp in
        let verified = timestamp_at (bank.accounts identity.key).contents in
        let max_age = registrar.max_verification_age in
        let now_pos = m.clock_pos clock timed in
        let now_i64 = m.clock_i64 clock timed in
        let verified_i64 =
          timestamp_at-IsI64 (bank.accounts identity.key).contents (m.bytes identity.key) in
        elim (ltb_ℤ_cases (age_of now verified) max_age) [
          | inl (test, young) ↦
              passed
                (record {
                  identity = identity;
                  identified = h;
                  timed = timed;
                  recent =
                      (age_of-lt now verified max_age now_pos now_i64 verified_i64 m.age).0 young;
                })
                (rw (timed, test))
          | inr (test, old) ↦
              refused
                (expired identity clock h.first timed
                  (age_of-le now verified max_age now_pos now_i64 verified_i64 m.age old))
                (rw (timed, test))
        ]
  ]

  module _ (identity : AccountMeta) (m : IsMachine registrar bank)
      (owns : record_of_voter.governing_token_owner ≡ voter)
      (first : head? remaining_accounts ≡ some identity) where
    abbrev Verified : Type 0
    Verified = Verdict (
        verify_voter_identity_and_recency rt registrar record_of_voter voter remaining_accounts
          bank)

    -- The checks on the account's data and after.
    data_outcome :
        (bank.accounts identity.key).owner ≡ entros_anchor_program_id
        → identity.key ≡ identity_pda rt voter
        → Verified
    unfolding verify_voter_identity_and_recency
    data_outcome owned derived =
        let contents = (bank.accounts identity.key).contents in
        let own = (==_iff record_of_voter.governing_token_owner voter).1 owns in
        let entros = (==_iff (bank.accounts identity.key).owner entros_anchor_program_id).1 owned in
        let at_pda = (==_iff identity.key (identity_pda rt voter)).1 derived in
        elim (IsIdentityState-cases contents) [
          | inr other ↦
              refused (untyped identity first other)
                (rw (own, first, entros, at_pda, parse_identity_refused contents other))
          | inl typed ↦ elim (leb_cases registrar.min_trust_score (trust_score_at contents)) [
            | inr (test, low) ↦
                refused (distrusted identity first low)
                  (rw (own, first, entros, at_pda, parse_identity_ok contents typed, test))
            | inl (test, trusted) ↦
                along
                  (clock_outcome identity m (record {
                    owns = owns;
                    first = first;
                    owned = owned;
                    derived = derived;
                    typed = typed;
                    trusted = trusted;
                  }))
                  (rw (own, first, entros, at_pda, parse_identity_ok contents typed, test))
          ]
        ]

    -- The checks on the account and after.
    account_outcome : Verified
    unfolding verify_voter_identity_and_recency
    account_outcome =
        let own = (==_iff record_of_voter.governing_token_owner voter).1 owns in
        elim (==_cases (bank.accounts identity.key).owner entros_anchor_program_id) [
          | inr (test, other) ↦ refused (foreign identity first other) (rw (own, first, test))
          | inl (owner_test, owned) ↦ elim (==_cases identity.key (identity_pda rt voter)) [
            | inr (test, other) ↦
                refused (misplaced identity first other) (rw (own, first, owner_test, test))
            | inl (test, derived) ↦ data_outcome owned derived
          ]
        ]

  pub verify-Outcome :
      IsMachine registrar bank
      → Outcome rt registrar record_of_voter voter remaining_accounts bank (
          verify_voter_identity_and_recency rt registrar record_of_voter voter remaining_accounts
            bank)
  unfolding verify_voter_identity_and_recency
  verify-Outcome m = elim (==_cases record_of_voter.governing_token_owner voter) [
    | inr (test, other) ↦ refused (other_owner other) (rw test)
    | inl (test, owns) ↦ elim (Option-cases (head? remaining_accounts)) [
      | inl missing ↦ refused (no_identity missing) (rw (test, missing))
      | inr (identity, first) ↦ account_outcome identity m owns first
    ]
  ]

  verify_complete :
      (clock : Clock)
      → IsMachine registrar bank
      → Eligible clock
      → verify_voter_identity_and_recency rt registrar record_of_voter voter remaining_accounts bank
        ≡ ok clock
  unfolding verify_voter_identity_and_recency
  verify_complete clock m e =
      let identity = e.identity in
      let h = e.identified in
      let contents = (bank.accounts identity.key).contents in
      let age = age_of clock.unix_timestamp (timestamp_at contents) in
      let young =
        (age_of-lt clock.unix_timestamp (timestamp_at contents) registrar.max_verification_age
            (m.clock_pos clock e.timed) (m.clock_i64 clock e.timed)
            (timestamp_at-IsI64 contents (m.bytes identity.key)) m.age).1
          e.recent in
      rw (
        (==_iff record_of_voter.governing_token_owner voter).1 h.owns,
        h.first,
        (==_iff (bank.accounts identity.key).owner entros_anchor_program_id).1 h.owned,
        (==_iff identity.key (identity_pda rt voter)).1 h.derived,
        parse_identity_ok contents h.typed,
        le→leb registrar.min_trust_score (trust_score_at contents) h.trusted,
        e.timed,
        (ltb_ℤ_iff age registrar.max_verification_age).1 young,
      )

  pub verify_iff :
      (clock : Clock)
      → IsMachine registrar bank
      → (verify_voter_identity_and_recency rt registrar record_of_voter voter remaining_accounts
            bank
          ≡ ok clock)
        ↔ IsEligible rt registrar record_of_voter voter remaining_accounts bank clock
  verify_iff clock m = (λ e. subst Verdict e (verify-Outcome m), verify_complete clock m)
