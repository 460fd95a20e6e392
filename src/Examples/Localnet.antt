-- ===== src/Examples/Localnet.antt =====
-- A concrete runtime: addresses by reading the seeds as a number, one governance program whose
-- realms have the authority 77, the account layouts of `Layout`, and accounts that are created and
-- closed at once.
use entros_governance_plugin.Base.{
  ℕ, ◌+◌, ◌≡◌, ◌≢◌, refl, false, some, List, [], ◌∷◌, ◌++◌, Bytes, get_or, ap, AllBytes, ap₂, ◌<◌,
  concat, from_le_bytes, ◌==◌, ==_cases, inl, inr, subst, if◌then◌else◌, replicate, arith,
}
use entros_governance_plugin.Error.{
  Result, ok, err, ok_injective, program, anchor, account_owned_by_wrong_program,
}
use entros_governance_plugin.Solana.{Pubkey, Account, Accounts, set, system_program_id}
use entros_governance_plugin.Runtime.{Runtime, RealmData}
use entros_governance_plugin.Runtime.Laws.{IsRuntime, Created, Closed}
use entros_governance_plugin.Governance.{id}
use entros_governance_plugin.Instructions.Attributes.Addresses.{IsCollisionFree}
use entros_governance_plugin.Layout.{
  voter_weight_record_borsh, max_voter_weight_record_borsh, registrar_account,
}
use entros_governance_plugin.Layout.First.{
  account_discriminator-take, max_account_discriminator-take, registrar_account-take,
}
use entros_governance_plugin.Program.Kinds.{IsDiscriminated}
use entros_governance_plugin.Layout.Space.{
  voter_weight_record_borsh-IsBorsh, max_voter_weight_record_borsh-IsBorsh,
  registrar_account-IsAccountType,
}

-- A final byte keeps the length.
abbrev pub find_program_address : List Bytes → Pubkey → Pubkey × ℕ
find_program_address seeds program_id = (from_le_bytes (concat seeds ++ 1 ∷ []), 255)

abbrev pub get_realm_data : Pubkey → Pubkey × Account → Pubkey → Result RealmData
get_realm_data governance (key, realm) mint =
    if realm.owner == governance then ok (record { authority = some 77 }) else err (program 1)

abbrev pub check_account : Account → Result (Unit {0})
check_account a = if a.owner == id then ok tt else err (anchor account_owned_by_wrong_program)

abbrev pub blank : ℕ → Account
blank space = record { lamports = 1; owner = id; executable = false; contents = replicate space 0 }

abbrev pub create_account : Pubkey → Pubkey → ℕ → Accounts → Result Accounts
create_account payer key space before =
    if (before key).owner == id then err (program 0) else ok (set before key (blank space))

abbrev pub empty : Account
empty = record { lamports = 0; owner = system_program_id; executable = false; contents = [] }

abbrev pub close_account : Pubkey → Pubkey → Accounts → Accounts
close_account key destination before =
    set
      (set before destination (record (before destination) {
        lamports = (before destination).lamports + (before key).lamports;
      }))
      key empty

abbrev pub localnet : Runtime
localnet = record {
  find_program_address = find_program_address;
  get_realm_data = get_realm_data;
  borsh_voter_weight_record = voter_weight_record_borsh;
  borsh_max_voter_weight_record = max_voter_weight_record_borsh;
  voter_weight_record_discriminator = 50 ∷ 101 ∷ 102 ∷ 57 ∷ 57 ∷ 98 ∷ 52 ∷ 98 ∷ [];
  max_voter_weight_record_discriminator = 57 ∷ 100 ∷ 53 ∷ 102 ∷ 102 ∷ 50 ∷ 57 ∷ 55 ∷ [];
  registrar = registrar_account (193 ∷ 202 ∷ 205 ∷ 51 ∷ 78 ∷ 168 ∷ 150 ∷ 128 ∷ []);
  check_account = check_account;
  create_account = create_account;
  close_account = close_account;
}

create_account-Created :
    (payer key : Pubkey) (space : ℕ) (before after : Accounts)
    → create_account payer key space before ≡ ok after
    → Created key space before after
create_account-Created payer key space before after e = elim (==_cases (before key).owner id) [
  | inl (test, _) ↦ absurd (cc (rw test at e))
  | inr (test, unused) ↦ subst (Created key space before) (ok_injective (rw test at e)) (record {
    unused = unused;
    owned = ground arith;
    zeros = ground arith;
    others = λ k other. (ground arith, ground arith);
  })
]

close_account-Closed :
    (key destination : Pubkey) (before : Accounts)
    → key ≢ destination
    → Closed key destination before (close_account key destination before)
unfolding id from_le_bytes
close_account-Closed key destination before h = record {
  released = ground arith;
  drained = ground arith;
  paid = ground arith;
  others = λ k other. (ground arith, ground arith);
}

pub localnet-IsRuntime : IsRuntime localnet
localnet-IsRuntime = record {
  check_account_iff = λ a. ground arith;
  created = create_account-Created;
  closed = close_account-Closed;
  discriminator_8 = refl;
  max_discriminator_8 = refl;
  registrar_saved = registrar_account-IsAccountType _ refl;
  voter_weight_record_borsh = voter_weight_record_borsh-IsBorsh;
  max_voter_weight_record_borsh = max_voter_weight_record_borsh-IsBorsh;
}

from_le_bytes-positive : (bs : Bytes) → 0 < from_le_bytes (bs ++ 1 ∷ [])
unfolding from_le_bytes
from_le_bytes-positive [] = omega arith
from_le_bytes-positive (b ∷ bs) = omega (arith, from_le_bytes-positive bs)

-- With a final byte that is not 0, the number of some bytes determines them.
from_le_bytes-injective :
    (xs ys : Bytes)
    → AllBytes xs
    → AllBytes ys
    → from_le_bytes (xs ++ 1 ∷ []) ≡ from_le_bytes (ys ++ 1 ∷ [])
    → xs ≡ ys
unfolding from_le_bytes
from_le_bytes-injective [] [] hx hy e = refl
from_le_bytes-injective [] (y ∷ ys) hx hy e = absurd (omega (arith, from_le_bytes-positive ys))
from_le_bytes-injective (x ∷ xs) [] hx hy e = absurd (omega (arith, from_le_bytes-positive xs))
from_le_bytes-injective (x ∷ xs) (y ∷ ys) (hx, hxs) (hy, hys) e =
    ap₂ (λ b bs. b ∷ bs) (omega arith) (from_le_bytes-injective xs ys hxs hys (omega arith))

pub localnet-IsCollisionFree : IsCollisionFree localnet
localnet-IsCollisionFree s t hs ht e = from_le_bytes-injective (concat s) (concat t) hs ht e

-- The first bytes of equal lists are equal.
first_eq : (xs ys : Bytes) → xs ≡ ys → get_or xs 0 0 ≡ get_or ys 0 0
first_eq xs ys e = ap (λ (l : Bytes). get_or l 0 0) e

pub localnet-IsDiscriminated : IsDiscriminated localnet
localnet-IsDiscriminated = record {
  registrar_discriminator = 193 ∷ 202 ∷ 205 ∷ 51 ∷ 78 ∷ 168 ∷ 150 ∷ 128 ∷ [];
  registrar_first = registrar_account-take (193 ∷ 202 ∷ 205 ∷ 51 ∷ 78 ∷ 168 ∷ 150 ∷ 128 ∷ []);
  record_first = account_discriminator-take;
  max_first = max_account_discriminator-take;
  registrar_record = λ e. absurd (omega (arith, first_eq _ _ e));
  registrar_max = λ e. absurd (omega (arith, first_eq _ _ e));
  record_max = λ e. absurd (omega (arith, first_eq _ _ e));
}
