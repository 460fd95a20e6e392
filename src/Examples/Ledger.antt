-- ===== src/Examples/Ledger.antt =====
-- A ledger of `Localnet`: a realm with its registrar, a voter's record and IdentityState.
use entros_governance_plugin.Base.{
  [], ◌∷◌, ◌++◌, Bytes, to_le_bytes, replicate, true, false, Bool, pos,
}
use entros_governance_plugin.Error.{ok}
use entros_governance_plugin.Solana.{
  Pubkey, Account, Accounts, set, Bank, Clock, AccountMeta, system_program_id,
}
use entros_governance_plugin.Addin.{VoterWeightRecord, MaxVoterWeightRecord}
use entros_governance_plugin.State.Registrar.{Registrar}
use entros_governance_plugin.Governance.{id}
use entros_governance_plugin.Layout.{
  serialize_registrar, serialize_voter_weight_record, serialize_max_voter_weight_record,
}
use entros_governance_plugin.Instructions.Attributes.{
  address, registrar_seeds, voter_weight_record_seeds, max_voter_weight_record_seeds,
}
use entros_governance_plugin.Instructions.CreateRegistrar.{CreateRegistrar}
use entros_governance_plugin.Instructions.UpdateRegistrar.{UpdateRegistrar}
use entros_governance_plugin.Instructions.CloseRegistrar.{CloseRegistrar}
use entros_governance_plugin.Instructions.CreateVoterWeightRecord.{CreateVoterWeightRecord}
use entros_governance_plugin.Instructions.CreateVoterWeightRecord.Effect.{born_expired}
use entros_governance_plugin.Instructions.CloseVoterWeightRecord.{CloseVoterWeightRecord}
use entros_governance_plugin.Instructions.CreateMaxVoterWeightRecord.{CreateMaxVoterWeightRecord}
use entros_governance_plugin.Instructions.CreateMaxVoterWeightRecord.Effect
use entros_governance_plugin.Instructions.UpdateMaxVoterWeightRecord.{UpdateMaxVoterWeightRecord}
use entros_governance_plugin.Instructions.UpdateVoterWeightRecord.{UpdateVoterWeightRecord}
use entros_governance_plugin.Instructions.UpdateVoterWeightRecord.Identity.{
  identity_pda, identity_discriminator, entros_anchor_program_id,
}
use entros_governance_plugin.Examples.Localnet.{localnet, empty}

abbrev pub governance : Pubkey
governance = 5

abbrev pub realm : Pubkey
realm = 6

abbrev pub mint : Pubkey
mint = 7

abbrev pub payer : Pubkey
payer = 8

abbrev pub voter : Pubkey
voter = 9

abbrev pub authority : Pubkey
authority = 77

unfoldable pub registrar_key : Pubkey
unfolding registrar_seeds
registrar_key = address localnet (registrar_seeds realm mint)

unfoldable pub record_key : Pubkey
unfolding voter_weight_record_seeds
record_key = address localnet (voter_weight_record_seeds realm mint voter)

unfoldable pub identity_key : Pubkey
identity_key = identity_pda localnet voter

abbrev pub registrar : Registrar
registrar = record {
  governance_program_id = governance;
  realm = realm;
  governing_token_mint = mint;
  min_trust_score = 100;
  max_verification_age = pos 2_592_000;
  reserved = replicate 64 0;
}

abbrev pub record_of_voter : VoterWeightRecord
record_of_voter = born_expired localnet registrar voter

abbrev pub held_by : Pubkey → Bytes → Account
held_by owner contents = record {
  lamports = 1;
  owner = owner;
  executable = false;
  contents = contents;
}

abbrev pub program_account : Account
program_account = record { lamports = 1; owner = 2; executable = true; contents = [] }

abbrev pub registrar_contents : Bytes
registrar_contents =
    (193 ∷ 202 ∷ 205 ∷ 51 ∷ 78 ∷ 168 ∷ 150 ∷ 128 ∷ []) ++ serialize_registrar registrar

-- 131 bytes of the 164 are in use.
abbrev pub record_contents : Bytes
record_contents = serialize_voter_weight_record record_of_voter ++ replicate 33 0

-- Verified at second 1000, with a trust score of 250.
abbrev pub identity_contents : Bytes
identity_contents =
    identity_discriminator
    ++ (replicate 40 0
        ++ (to_le_bytes 8 1000 ++ (replicate 4 0 ++ (to_le_bytes 2 250 ++ replicate 38 0))))

-- A realm of a governance program, with nothing of this program yet.
unfoldable pub bare_accounts : Accounts
bare_accounts =
    set (set (set (λ _. empty) system_program_id program_account) governance program_account) realm
      (held_by governance [])

unfoldable pub accounts : Accounts
accounts =
    set
      (set (set bare_accounts registrar_key (held_by id registrar_contents)) record_key
        (held_by id record_contents))
      identity_key (held_by entros_anchor_program_id identity_contents)

abbrev pub max_record : MaxVoterWeightRecord
max_record = Effect.born_expired localnet registrar

unfoldable pub max_record_key : Pubkey
unfolding max_voter_weight_record_seeds
max_record_key = address localnet (max_voter_weight_record_seeds realm mint)

abbrev pub max_record_contents : Bytes
max_record_contents = serialize_max_voter_weight_record max_record ++ replicate 8 0

unfoldable pub max_accounts : Accounts
max_accounts = set accounts max_record_key (held_by id max_record_contents)

abbrev pub clock : Clock
clock = record { slot = 500; unix_timestamp = pos 2000 }

abbrev pub bank : Bank
bank = record { accounts = accounts; clock = ok clock }

abbrev pub bare_bank : Bank
bare_bank = record { accounts = bare_accounts; clock = ok clock }

abbrev pub max_bank : Bank
max_bank = record { accounts = max_accounts; clock = ok clock }

abbrev pub meta : Pubkey → Bool → Bool → AccountMeta
meta key is_signer is_writable = record {
  key = key;
  is_signer = is_signer;
  is_writable = is_writable;
}

abbrev pub signs : Pubkey → AccountMeta
signs key = meta key true false

abbrev pub reads : Pubkey → AccountMeta
reads key = meta key false false

abbrev pub writes : Pubkey → AccountMeta
writes key = meta key false true

abbrev pub pays : AccountMeta
pays = meta payer true true

abbrev pub create : CreateRegistrar
create = record {
  registrar = writes registrar_key;
  governance_program_id = reads governance;
  realm = reads realm;
  governing_token_mint = reads mint;
  realm_authority = signs authority;
  payer = pays;
  system_program = reads system_program_id;
}

abbrev pub reconfigure : UpdateRegistrar
reconfigure = record {
  registrar = writes registrar_key;
  realm = reads realm;
  realm_authority = signs authority;
}

abbrev pub close : CloseRegistrar
close = record {
  registrar = writes registrar_key;
  realm = reads realm;
  realm_authority = signs authority;
  sol_destination = writes payer;
}

-- Another voter, whose record is not there yet.
abbrev pub newcomer : Pubkey
newcomer = 10

unfoldable pub newcomer_record_key : Pubkey
unfolding voter_weight_record_seeds
newcomer_record_key = address localnet (voter_weight_record_seeds realm mint newcomer)

abbrev pub join : CreateVoterWeightRecord
join = record {
  registrar = reads registrar_key;
  voter_weight_record = writes newcomer_record_key;
  governing_token_owner_signer = signs newcomer;
  payer = pays;
  system_program = reads system_program_id;
}

abbrev pub update : UpdateVoterWeightRecord
update = record {
  registrar = reads registrar_key;
  voter_weight_record = writes record_key;
  voter_authority = signs voter;
  remaining_accounts = reads identity_key ∷ [];
}

abbrev pub leave : CloseVoterWeightRecord
leave = record {
  registrar = reads registrar_key;
  voter_weight_record = writes record_key;
  voter_authority = signs voter;
  sol_destination = writes payer;
}

abbrev pub create_max : CreateMaxVoterWeightRecord
create_max = record {
  registrar = reads registrar_key;
  max_voter_weight_record = writes max_record_key;
  realm = reads realm;
  realm_authority = signs authority;
  payer = pays;
  system_program = reads system_program_id;
}

abbrev pub set_max : UpdateMaxVoterWeightRecord
set_max = record {
  registrar = reads registrar_key;
  max_voter_weight_record = writes max_record_key;
  realm = reads realm;
  realm_authority = signs authority;
}
