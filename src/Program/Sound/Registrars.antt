-- ===== src/Program/Sound/Registrars.antt =====
-- The three instructions on a registrar keep the accounts sound.
use entros_governance_plugin.Base.{ℕ, ◌^◌, ◌<◌, ◌≡◌, ℤ, IsI64, arith}
use entros_governance_plugin.Error.{ok}
use entros_governance_plugin.Solana.{Bank}
use entros_governance_plugin.Runtime.{Runtime}
use entros_governance_plugin.Runtime.Laws.{IsRuntime}
use entros_governance_plugin.Instructions.CreateRegistrar
use entros_governance_plugin.Instructions.CreateRegistrar.{CreateRegistrar}
use entros_governance_plugin.Instructions.CreateRegistrar.Effect.{
  IsTyped, configured-IsValid, create_registrar_opens,
}
use entros_governance_plugin.Instructions.UpdateRegistrar
use entros_governance_plugin.Instructions.UpdateRegistrar.{UpdateRegistrar}
use entros_governance_plugin.Instructions.UpdateRegistrar.Effect.{
  parameters-IsValid, update_registrar_writes,
}
use entros_governance_plugin.Instructions.CloseRegistrar
use entros_governance_plugin.Instructions.CloseRegistrar.{CloseRegistrar}
use entros_governance_plugin.Instructions.CloseRegistrar.Effect.{close_registrar_closes}
use entros_governance_plugin.Program.Slots.{registrar_slot, IsSound, change-IsSound, close-IsSound}
use entros_governance_plugin.Program.Calls.{RegistrarAt}
use entros_governance_plugin.Program.Sound.Writing.{same_data, Written-Holds}

module _ {rt : Runtime} (laws : IsRuntime rt) (bank after : Bank) where
  pub create_registrar-IsSound :
      (ctx : CreateRegistrar) (min_trust_score : ℕ) (max_verification_age : ℤ)
      → IsTyped ctx min_trust_score max_verification_age
      → CreateRegistrar.execute rt ctx min_trust_score max_verification_age bank ≡ ok after
      → IsSound rt bank.accounts
      → IsSound rt after.accounts
  create_registrar-IsSound ctx min_trust_score max_verification_age typed e =
      let c =
        create_registrar_opens ctx bank min_trust_score max_verification_age after laws typed e in
      change-IsSound ctx.registrar.key
        (registrar_slot _ (record {
          held = c.opened.held;
          at_address = c.accepted.at_address;
          valid = configured-IsValid ctx min_trust_score max_verification_age typed;
          room = omega (arith, c.opened.sized);
          positive = c.positive;
        }))
        c.opened.others

  pub update_registrar-IsSound :
      (ctx : UpdateRegistrar) (min_trust_score : ℕ) (max_verification_age : ℤ)
      → RegistrarAt rt bank.accounts ctx.registrar.key
      → min_trust_score < 2 ^ 16
      → IsI64 max_verification_age
      → UpdateRegistrar.execute rt ctx min_trust_score max_verification_age bank ≡ ok after
      → IsSound rt bank.accounts
      → IsSound rt after.accounts
  update_registrar-IsSound ctx min_trust_score max_verification_age (r, h) score age e =
      let (accepted, _, positive, written) =
        update_registrar_writes laws ctx bank r h.held h.valid h.room min_trust_score
          max_verification_age after score age e in
      change-IsSound ctx.registrar.key
        (registrar_slot _ (record {
          held = Written-Holds h.held written;
          at_address = accepted.at_address;
          valid =
              parameters-IsValid laws ctx bank r h.held h.valid h.room min_trust_score
                max_verification_age score age;
          room = omega (arith, written.kept_length, h.room);
          positive = positive;
        }))
        (λ k other. same_data (written.others k other))

  pub close_registrar-IsSound :
      (ctx : CloseRegistrar)
      → RegistrarAt rt bank.accounts ctx.registrar.key
      → CloseRegistrar.execute rt ctx bank ≡ ok after
      → IsSound rt bank.accounts
      → IsSound rt after.accounts
  close_registrar-IsSound ctx (r, h) e =
      let (_, _, c) = close_registrar_closes ctx bank r after laws h.held e in
      close-IsSound ctx.registrar.key c.released c.others
