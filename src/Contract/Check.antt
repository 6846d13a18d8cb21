-- ===== src/Contract/Check.antt =====
-- ValidateActionStatus of gamemaster/types.go.
use ai_arena.Prelude.{◌is◌, if◌then◌else◌, Option, none, some}
use ai_arena.Contract.{ActionStatus, ActionDecision, accepted, no_action, is_no_reason}
use ai_arena.Json.{is_no_bytes}

pub data ActionError : Type 0 where
  player_id_required accepted_with_reason accepted_without_action no_action_with_action :
      ActionError
  unknown_status : ActionDecision → ActionError

validate_decision : ActionDecision → ActionStatus → Option ActionError
validate_decision accepted s =
    if is_no_reason s.failure_reason
    then if is_no_bytes s.action then some accepted_without_action else none
    else some accepted_with_reason
validate_decision no_action s = if is_no_bytes s.action then none else some no_action_with_action
validate_decision d s = some (unknown_status d)

-- `none` is a status without an error.
unfoldable pub validate_action_status : ActionStatus → Option ActionError
unfolding validate_decision
validate_action_status s =
    if s.player_id is "" then some player_id_required else validate_decision s.action_status s
