-- ===== src/Instructions/Attributes/Addresses.antt =====
-- The program's addresses: the seeds of its accounts are told apart.
use entros_governance_plugin.Base.{
  ℕ, ◌≡◌, refl, sym, ap, ap₂, ◌∙◌, List, [], ◌++◌, Bytes, bytes, concat, AllBytes,
  all_bytes-AllBytes, AllBytes-append, to_le_bytes-AllBytes, length-to_le_bytes,
  to_le_bytes-append_injective, length, drop, length-append, arith,
}
use entros_governance_plugin.Solana.{Pubkey, IsPubkey, as_ref}
use entros_governance_plugin.Runtime.{Runtime}
use entros_governance_plugin.Instructions.Attributes.{
  address, registrar_seeds, voter_weight_record_seeds, max_voter_weight_record_seeds,
}

-- The derivation hashes the seeds one after the other, and the hash has no collisions here.
abbrev pub IsCollisionFree : Runtime → Type 0
IsCollisionFree rt =
    (s t : List Bytes)
    → AllBytes (concat s)
    → AllBytes (concat t)
    → address rt s ≡ address rt t
    → concat s ≡ concat t

-- What an account of the program is for.
pub data Purpose : Type 0 where
  registrar_of : (realm mint : Pubkey) → Purpose
  record_of : (realm mint owner : Pubkey) → Purpose
  max_record_of : (realm mint : Pubkey) → Purpose

abbrev pub IsKeyed : Purpose → Type 0
IsKeyed (registrar_of realm mint) = IsPubkey realm × IsPubkey mint
IsKeyed (record_of realm mint owner) = IsPubkey realm × IsPubkey mint × IsPubkey owner
IsKeyed (max_record_of realm mint) = IsPubkey realm × IsPubkey mint

abbrev pub seeds_of : Purpose → List Bytes
seeds_of (registrar_of realm mint) = registrar_seeds realm mint
seeds_of (record_of realm mint owner) = voter_weight_record_seeds realm mint owner
seeds_of (max_record_of realm mint) = max_voter_weight_record_seeds realm mint

-- The length of the seeds tells what the account is for.
abbrev size : Purpose → ℕ
size (registrar_of _ _) = 73
size (record_of _ _ _) = 115
size (max_record_of _ _) = 87

length-seeds_of : (p : Purpose) → length (concat (seeds_of p)) ≡ size p
unfolding registrar_seeds voter_weight_record_seeds max_voter_weight_record_seeds
length-seeds_of (registrar_of realm mint) = simp (length-append, length-to_le_bytes) (omega arith)
length-seeds_of (record_of realm mint owner) =
    simp (length-append, length-to_le_bytes) (omega arith)
length-seeds_of (max_record_of realm mint) = simp (length-append, length-to_le_bytes) (omega arith)

keys-AllBytes : (k : Pubkey) (rest : Bytes) → AllBytes rest → AllBytes (as_ref k ++ rest)
keys-AllBytes k rest h = AllBytes-append (as_ref k) rest (to_le_bytes-AllBytes 32 k) h

seeds_of-AllBytes : (p : Purpose) → AllBytes (concat (seeds_of p))
unfolding registrar_seeds voter_weight_record_seeds max_voter_weight_record_seeds
seeds_of-AllBytes (registrar_of realm mint) =
    AllBytes-append (bytes "registrar") _ (all_bytes-AllBytes (bytes "registrar") refl)
      (keys-AllBytes realm _ (keys-AllBytes mint [] tt))
seeds_of-AllBytes (record_of realm mint owner) =
    AllBytes-append (bytes "voter-weight-record") _
      (all_bytes-AllBytes (bytes "voter-weight-record") refl)
      (keys-AllBytes realm _ (keys-AllBytes mint _ (keys-AllBytes owner [] tt)))
seeds_of-AllBytes (max_record_of realm mint) =
    AllBytes-append (bytes "max-voter-weight-record") _
      (all_bytes-AllBytes (bytes "max-voter-weight-record") refl)
      (keys-AllBytes realm _ (keys-AllBytes mint [] tt))

two_keys :
    (realm realm' mint mint' : Pubkey)
    → IsPubkey realm × IsPubkey mint
    → IsPubkey realm' × IsPubkey mint'
    → as_ref realm ++ (as_ref mint ++ []) ≡ as_ref realm' ++ (as_ref mint' ++ [])
    → (realm ≡ realm') × (mint ≡ mint')
two_keys realm realm' mint mint' h h' e =
    let (same, rest) = to_le_bytes-append_injective 32 realm realm' _ _ h.0 h'.0 e in
    (same, (to_le_bytes-append_injective 32 mint mint' _ _ h.1 h'.1 rest).0)

three_keys :
    (realm realm' mint mint' owner owner' : Pubkey)
    → IsPubkey realm × IsPubkey mint × IsPubkey owner
    → IsPubkey realm' × IsPubkey mint' × IsPubkey owner'
    → as_ref realm ++ (as_ref mint ++ (as_ref owner ++ []))
      ≡ as_ref realm' ++ (as_ref mint' ++ (as_ref owner' ++ []))
    → record_of realm mint owner ≡ record_of realm' mint' owner'
three_keys realm realm' mint mint' owner owner' (hr, hm, ho) (hr', hm', ho') e =
    let (same, rest) = to_le_bytes-append_injective 32 realm realm' _ _ hr hr' e in
    let (same_mint, same_owner) = two_keys mint mint' owner owner' (hm, ho) (hm', ho') rest in
    rw (same, same_mint, same_owner) refl

sized_seeds_of-injective :
    (p q : Purpose)
    → IsKeyed p
    → IsKeyed q
    → concat (seeds_of p) ≡ concat (seeds_of q)
    → size p ≡ size q
    → p ≡ q
unfolding registrar_seeds voter_weight_record_seeds max_voter_weight_record_seeds
sized_seeds_of-injective (registrar_of realm mint) (registrar_of realm' mint') hp hq e _ =
    let same = two_keys realm realm' mint mint' hp hq (ap (drop 9) e) in
    ap₂ registrar_of same.0 same.1
sized_seeds_of-injective (record_of realm mint owner) (record_of realm' mint' owner') hp hq e _ =
    three_keys realm realm' mint mint' owner owner' hp hq (ap (drop 19) e)
sized_seeds_of-injective (max_record_of realm mint) (max_record_of realm' mint') hp hq e _ =
    let same = two_keys realm realm' mint mint' hp hq (ap (drop 23) e) in
    ap₂ max_record_of same.0 same.1
sized_seeds_of-injective (registrar_of _ _) (record_of _ _ _) hp hq e sized = absurd (omega arith)
sized_seeds_of-injective (registrar_of _ _) (max_record_of _ _) hp hq e sized = absurd (omega arith)
sized_seeds_of-injective (record_of _ _ _) (registrar_of _ _) hp hq e sized = absurd (omega arith)
sized_seeds_of-injective (record_of _ _ _) (max_record_of _ _) hp hq e sized = absurd (omega arith)
sized_seeds_of-injective (max_record_of _ _) (registrar_of _ _) hp hq e sized = absurd (omega arith)
sized_seeds_of-injective (max_record_of _ _) (record_of _ _ _) hp hq e sized = absurd (omega arith)

seeds_of-injective :
    (p q : Purpose) → IsKeyed p → IsKeyed q → concat (seeds_of p) ≡ concat (seeds_of q) → p ≡ q
seeds_of-injective p q hp hq e =
    sized_seeds_of-injective p q hp hq e (sym (length-seeds_of p) ∙ ap length e ∙ length-seeds_of q)

-- On a runtime whose address derivation has no collisions, two addresses of the program are the
-- same only for the same kind of account and the same realm, mint and, for a record, owner, all
-- keys of 32 bytes: the seeds, hashed one after the other, cannot be read in two ways.
pub address-injective :
    (rt : Runtime) (p q : Purpose)
    → IsCollisionFree rt
    → IsKeyed p
    → IsKeyed q
    → address rt (seeds_of p) ≡ address rt (seeds_of q)
    → p ≡ q
address-injective rt p q free hp hq e =
    seeds_of-injective p q hp hq
      (free (seeds_of p) (seeds_of q) (seeds_of-AllBytes p) (seeds_of-AllBytes q) e)
