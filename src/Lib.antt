-- ===== src/Lib.antt =====
-- The Entros voter weight plugin (programs/entros-voter-weight), an Anchor program that gives a
-- realm of spl-governance one vote per verified person.
--
-- Parts. A registrar per realm and governing token mint holds the least trust score and the allowed
-- age of a verification; the authority of the realm creates, changes and closes it. A voter has one
-- voter weight record per realm and mint, born with no weight and expired; an update reads the
-- voter's IdentityState of the Entros Anchor program and grants weight 1 for a few slots, or for one
-- action on one target in the current slot. A max voter weight record per realm and mint is set by
-- the authority. spl-governance reads the records; it is not part of the program.
--
-- Files, and the code that they model (under programs/entros-voter-weight/src):
--   Base, Base/*           numbers, lists, bytes and 64-bit integers that the modules share
--   Error                  error.rs; Result with its do blocks, and the inversion lemmas on them
--   Solana                 keys, accounts, the clock, an instruction's account references
--   Addin                  the records of spl-governance-addin-api, fields as the wrappers list them
--   State/Registrar,Action state/registrar.rs: Registrar, Registrar::LEN, VoterWeightAction
--   Runtime, Runtime/Laws  what the program calls and does not implement, as a record of parameters,
--                          and its documented behaviour as hypotheses
--   Governance             governance.rs, state/mod.rs: the wrappers and get_space
--   Layout, Layout/*       one instance of the parameters: the accounts' bytes, and that they fit
--   Instructions/*         instructions/*.rs, a file per instruction: the account struct as a record,
--                          the checks of its attributes in Anchor's order as `try_accounts`, the
--                          handler under its own name, and `execute`, which runs both and writes the
--                          changed account back; Effect below each says what a success has done
--   Instructions/UpdateVoterWeightRecord/*
--                          Identity is verify_voter_identity_and_recency; Eligibility describes who
--                          is eligible and Verify compares the two; Parse and Age are its steps;
--                          Accepted, Granted, Grant and Exact treat the two updates
--   Program, Program/*     lib.rs: the dispatch; Slots says what a sound account is, Kinds what a
--                          read tells of its kind, Reads what an instruction reads, Reachable which
--                          banks calls lead to; Sound treats their accounts and Unique the records
--                          of one voter; Calls and Authority treat who signs
--   Examples/*             a concrete chain on which the instructions run and the theorems apply
--
-- Conventions. A key is the number of its 32 bytes; an account map is a function on keys; numbers of
-- a fixed width are natural numbers or integers with their range as a hypothesis, and the two
-- operations that can overflow, checked_sub and saturating_add, are written out. A handler takes the
-- loaded accounts and returns the changed one. No recursion needs fuel: every loop is over a list.
-- An account that is read-only, a signer or a program appears by its key and flags; the handlers'
-- `&mut` accounts are written back at the end, as Anchor does. Borrowing of account data always
-- succeeds, since no other part of the instruction holds it.
--
-- The wrappers of the addin records have no discriminator check, so an update of one takes any account
-- of the program that can be read as one. Where a theorem needs the discriminator it is a hypothesis,
-- and a test among the examples runs an update of the wrong kind of record.
--
-- Not modelled: the derived serialisation of instruction data and the dispatch bytes, rent, compute
-- limits, logs and error messages, IDL generation, the bump values, and the programs spl-governance
-- and Entros Anchor; an instruction that fails leaves the bank as it was, so only its error is a
-- result. The tests and scripts of the repository are not modelled.
pub mod Base
pub mod Error
pub mod Solana
pub mod Addin
pub mod State
pub mod Runtime
pub mod Governance
pub mod Instructions
pub mod Layout
pub mod Program
pub mod Examples
