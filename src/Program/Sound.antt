-- ===== src/Program/Sound.antt =====
-- Every instruction keeps the program's accounts sound, and so does every run of the program.
pub mod Writing
mod Registrars
mod Records
mod MaxRecords
use entros_governance_plugin.Base.{◌≡◌, sym, ◌∙◌}
use entros_governance_plugin.Error.{ok}
use entros_governance_plugin.Solana.{Pubkey, Bank}
use entros_governance_plugin.State.Action.{from}
use entros_governance_plugin.Runtime.{Runtime}
use entros_governance_plugin.Runtime.Laws.{IsRuntime}
use entros_governance_plugin.Instructions.Attributes.Access.{Holds}
use entros_governance_plugin.Instructions.UpdateVoterWeightRecord.{UpdateVoterWeightRecord}
use entros_governance_plugin.Program.{
  Instruction, create_registrar, update_registrar, create_voter_weight_record,
  update_voter_weight_record, update_voter_weight_record_for_action, close_registrar,
  close_voter_weight_record, create_max_voter_weight_record, update_max_voter_weight_record,
  process,
}
use entros_governance_plugin.Program.Slots.{IsSound, Slot-same}
use entros_governance_plugin.Program.Calls.{RegistrarAt, IsUpdate}
use entros_governance_plugin.Program.Sound.Registrars.{
  create_registrar-IsSound, update_registrar-IsSound, close_registrar-IsSound,
}
use entros_governance_plugin.Program.Sound.Records.{
  create_voter_weight_record-IsSound, update_voter_weight_record-IsSound,
  update_voter_weight_record_for_action-IsSound, close_voter_weight_record-IsSound,
}
use entros_governance_plugin.Program.Sound.MaxRecords.{
  create_max_voter_weight_record-IsSound, update_max_voter_weight_record-IsSound,
}
use entros_governance_plugin.Addin
use entros_governance_plugin.State.Registrar.{Registrar}
use entros_governance_plugin.Governance.{voter_weight_record}
use entros_governance_plugin.Program.Kinds.{
  IsDiscriminated, IsTagged, Holds-RegistrarAt, IsTagged-RecordAt, IsTagged-MaxAt,
}
use entros_governance_plugin.Program.Reachable.{
  IsHost, IsPermitted, Reachable, genesis, call, outside,
}
use entros_governance_plugin.Program.Reads.{
  update_registrar-Holds, close_registrar-Holds, create_voter_weight_record-Holds,
  update_voter_weight_record-Holds, update_voter_weight_record_for_action-Holds,
  create_max_voter_weight_record-Holds, update_max_voter_weight_record-Holds,
}

module _ {rt : Runtime} (laws : IsRuntime rt) (tags : IsDiscriminated rt) (bank after : Bank)
    (sound : IsSound rt bank.accounts) where
  registrar_at :
      (key : Pubkey)
      → (r : Registrar) × Holds rt.registrar bank.accounts key r
      → RegistrarAt rt bank.accounts key
  registrar_at key (r, held) = Holds-RegistrarAt tags r held (sound key held.owned)

  -- An update that succeeds was given a registrar and a voter's record.
  updated :
      (ctx : UpdateVoterWeightRecord)
      → IsHost bank
      → IsTagged rt.voter_weight_record_discriminator bank.accounts ctx.voter_weight_record.key
      → ((r : Registrar) × Holds rt.registrar bank.accounts ctx.registrar.key r)
      → ((v : Addin.VoterWeightRecord) × Holds
            (voter_weight_record rt)
            bank.accounts
            ctx.voter_weight_record.key
            v)
      → (u : IsUpdate rt ctx bank) × (u.at_record.0.account_discriminator
          ≡ rt.voter_weight_record_discriminator)
  updated ctx host tagged reads_registrar (_, held) =
      let (r, at_registrar) = registrar_at ctx.registrar.key reads_registrar in
      let (v, at_record, tag) =
        IsTagged-RecordAt tags tagged (sound ctx.voter_weight_record.key held.owned) in
      (
        record {
          registrar = r;
          at_registrar = at_registrar;
          at_record = (v, at_record);
          machine = record {
            bytes = host.bytes;
            age = at_registrar.valid.age_i64;
            clock_i64 = host.clock_i64;
            slot_u64 = host.slot_u64;
            clock_pos = host.clock_pos;
          };
        },
        tag,
      )

-- On a runtime that behaves as documented and whose three account types begin with different
-- discriminators, an instruction that succeeds on a sound ledger leaves a sound ledger, whatever
-- accounts it names, if it is permitted: its numbers are within their types, an addin record that
-- it updates begins with the discriminator of its type, which the wrappers do not check, and for an
-- update of a voter's record bytes are below 256 and the clock is not before 1970.
pub process-IsSound :
    {rt : Runtime} (ix : Instruction) (bank after : Bank)
    → IsRuntime rt
    → IsDiscriminated rt
    → IsPermitted rt ix bank
    → process rt ix bank ≡ ok after
    → IsSound rt bank.accounts
    → IsSound rt after.accounts
unfolding process
process-IsSound (create_registrar ctx min_trust_score max_verification_age) bank after laws tags
      typed e sound =
    create_registrar-IsSound laws bank after ctx min_trust_score max_verification_age typed e sound
process-IsSound (update_registrar ctx min_trust_score max_verification_age) bank after laws tags
      (score, age) e sound =
    let at =
      registrar_at laws tags bank after sound ctx.registrar.key
        (update_registrar-Holds laws bank after ctx min_trust_score max_verification_age e) in
    update_registrar-IsSound laws bank after ctx min_trust_score max_verification_age at score age e
      sound
process-IsSound (create_voter_weight_record ctx owner) bank after laws tags key e sound =
    let at =
      registrar_at laws tags bank after sound ctx.registrar.key
        (create_voter_weight_record-Holds laws bank after ctx owner e) in
    create_voter_weight_record-IsSound laws bank after ctx owner at key e sound
process-IsSound (update_voter_weight_record ctx) bank after laws tags (host, tagged) e sound =
    let (reads_registrar, reads_record) = update_voter_weight_record-Holds laws bank after ctx e in
    let (u, tag) =
      updated laws tags bank after sound ctx host tagged reads_registrar reads_record in
    update_voter_weight_record-IsSound laws bank after ctx u tag e sound
process-IsSound (update_voter_weight_record_for_action ctx action target) bank after laws tags
      (host, tagged, key) e sound =
    let (reads_registrar, reads_record) =
      update_voter_weight_record_for_action-Holds laws bank after ctx action target e in
    let (u, tag) =
      updated laws tags bank after sound ctx host tagged reads_registrar reads_record in
    update_voter_weight_record_for_action-IsSound laws bank after ctx action target u tag key e
      sound
process-IsSound (close_registrar ctx) bank after laws tags _ e sound =
    let at =
      registrar_at laws tags bank after sound ctx.registrar.key
        (close_registrar-Holds laws bank after ctx e) in
    close_registrar-IsSound laws bank after ctx at e sound
process-IsSound (close_voter_weight_record ctx) bank after laws tags _ e sound =
    close_voter_weight_record-IsSound laws bank after ctx e sound
process-IsSound (create_max_voter_weight_record ctx) bank after laws tags _ e sound =
    let at =
      registrar_at laws tags bank after sound ctx.registrar.key
        (create_max_voter_weight_record-Holds laws bank after ctx e) in
    create_max_voter_weight_record-IsSound laws bank after ctx at e sound
process-IsSound (update_max_voter_weight_record ctx max_voter_weight) bank after laws tags
      (tagged, weight) e sound =
    let (reads_registrar, (_, held)) =
      update_max_voter_weight_record-Holds laws bank after ctx max_voter_weight e in
    let at = registrar_at laws tags bank after sound ctx.registrar.key reads_registrar in
    let max = IsTagged-MaxAt tags tagged (sound ctx.max_voter_weight_record.key held.owned) in
    update_max_voter_weight_record-IsSound laws bank after ctx max_voter_weight at max weight e
      sound

-- On a runtime that behaves as documented and whose three account types begin with different
-- discriminators, every account of the program in every reachable bank is sound: a registrar with a
-- positive age, a voter's record that has no weight and is expired at slot 0 or has weight 1 and an
-- expiry, and that is for anything or for one action on one target other than the default key, or a
-- max voter weight record that has no weight and is expired at slot 0 or has a positive weight and
-- no expiry; each is at the address of its own fields, in range and with room, and a record has the
-- discriminator of its type. A reachable bank is one in which the program owns no account, or comes
-- from a reachable one by a permitted instruction that succeeds, or by a change that keeps the data
-- of the program's accounts and gives it no new ones. Permitted means that the numbers are within
-- their types, that an addin record that the instruction updates begins with the discriminator of
-- its type, which the wrappers do not check, and for an update of a voter's record that bytes are
-- below 256 and the clock is not before 1970.
pub Reachable-IsSound :
    {rt : Runtime} (bank : Bank)
    → IsRuntime rt
    → IsDiscriminated rt
    → Reachable rt bank
    → IsSound rt bank.accounts
Reachable-IsSound bank laws tags (genesis _ none_owned) = λ key owned. absurd (none_owned key owned)
Reachable-IsSound after laws tags (call ix bank _ r permitted e) =
    process-IsSound ix bank after laws tags permitted e (Reachable-IsSound bank laws tags r)
Reachable-IsSound after laws tags (outside bank _ r kept) = λ key owned.
    let same = kept key owned in
    Slot-same key same (Reachable-IsSound bank laws tags r key (sym same.0 ∙ owned))
