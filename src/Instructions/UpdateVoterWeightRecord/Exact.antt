-- ===== src/Instructions/UpdateVoterWeightRecord/Exact.antt =====
-- When the two updates succeed.
use entros_governance_plugin.State.Registrar.{Registrar}
use entros_governance_plugin.Runtime.{Runtime}
use entros_governance_plugin.Instructions.UpdateVoterWeightRecord.{UpdateVoterWeightRecord}
