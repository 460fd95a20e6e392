-- ===== src/Governance/Saved.antt =====
-- The wrappers' serialisation, over any Borsh that reads back what it wrote: what an instruction
-- writes into an account is what the next one reads.
use entros_governance_plugin.Base.{
  ℕ, ◌≤◌, ◌≡◌, some, ◌++◌, Bytes, length, drop, length-append, length-drop, arith,
}
use entros_governance_plugin.Runtime.{Borsh}
use entros_governance_plugin.Runtime.Laws.{IsBorsh, IsAccountType}
use entros_governance_plugin.Governance.{
  write_all, try_serialize, try_deserialize_unchecked, wrapper,
}

-- A write that fits succeeds and keeps the buffer's length.
pub write_all_fits :
    (bs buffer : Bytes)
    → length bs ≤ length buffer
    → (write_all bs buffer ≡ some (bs ++ drop (length bs) buffer))
      × (length (bs ++ drop (length bs) buffer) ≡ length buffer)
write_all_fits bs buffer h = (
  ground arith,
  omega (arith, length-append bs (drop (length bs) buffer), length-drop (length bs) buffer),
)

-- A record in a wrapper, over a Borsh that reads back what it wrote: a valid record is written into
-- any account with the room for it, keeps the account's size and is read back; and zeros are read
-- as the record of zeros.
pub wrapper-IsAccountType :
    {A : Type 0} {b : Borsh A} {IsValid : A → Type 0} {space : ℕ} {zeroed : A}
    → IsBorsh b IsValid space zeroed
    → IsAccountType (wrapper b) IsValid space zeroed
unfolding try_serialize try_deserialize_unchecked
wrapper-IsAccountType {b} h = record {
  saves = λ a buffer v room.
      let fits = write_all_fits (b.serialize a) buffer (omega (arith, h.length-serialize a v)) in
      (
        b.serialize a ++ drop (length (b.serialize a)) buffer,
        rw fits.0,
        fits.1,
        rw (h.deserialize-serialize a (drop (length (b.serialize a)) buffer) v),
      );
  initial = rw h.deserialize-replicate;
}
