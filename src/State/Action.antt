-- ===== src/State/Action.antt =====
-- programs/entros-voter-weight/src/state/registrar.rs: the governance action that an update is for.
use entros_governance_plugin.Addin

pub data VoterWeightAction : Type 0 where
  cast_vote comment_proposal create_governance create_proposal sign_off_proposal : VoterWeightAction

-- `impl From<VoterWeightAction> for spl_governance_addin_api::voter_weight::VoterWeightAction`.
unfoldable pub from : VoterWeightAction → Addin.VoterWeightAction
from cast_vote = Addin.cast_vote
from comment_proposal = Addin.comment_proposal
from create_governance = Addin.create_governance
from create_proposal = Addin.create_proposal
from sign_off_proposal = Addin.sign_off_proposal
