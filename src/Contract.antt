-- ===== src/Contract.antt =====
-- gamemaster/types.go (aliased by internal/platform/contract and internal/platform/game): the types
-- that the platform and the games exchange. Go's string enumerations are data types, with a
-- constructor for the values outside the declared constants.
pub mod Check
use ai_arena.Prelude.{ℕ, String, Bool, true, false, List, ◌is◌, if◌then◌else◌, Dict}
use ai_arena.Prelude.Int.{ℤ}
use ai_arena.Json.{RawMessage}

pub record GameMetadata : Type 0 where
  pub game_id : String
  pub game_version : String
  pub ruleset_version : String

pub record Player : Type 0 where
  pub player_id : String
  pub ai_id : String

pub data DecisionMode : Type 0 where
  sequential simultaneous : DecisionMode
  other_mode : String → DecisionMode

-- A time.Duration is counted in nanoseconds.
pub record DecisionRequest : Type 0 where
  pub player_id : String
  pub visible_state : RawMessage
  pub legal_action_hint : RawMessage
  pub deadline : ℤ

pub record DecisionStep : Type 0 where
  pub turn : ℤ
  pub mode : DecisionMode
  pub requests : List DecisionRequest

pub data MatchStatus : Type 0 where
  starting initializing running finishing completed failed canceled : MatchStatus

pub data ActionDecision : Type 0 where
  accepted no_action : ActionDecision
  -- The zero value, and what is neither constant.
  no_decision : ActionDecision
  other_decision : String → ActionDecision

pub data FailureReason : Type 0 where
  -- The zero value: no failure.
  no_reason : FailureReason
  timeout malformed mismatched_id late_response illegal_action runtime_stop : FailureReason
  other_reason : String → FailureReason

pub record ActionStatus : Type 0 where
  pub player_id : String
  pub action_status : ActionDecision
  pub failure_reason : FailureReason
  pub action : RawMessage

abbrev pub is_accepted : ActionDecision → Bool
is_accepted accepted = true
is_accepted _ = false

abbrev pub is_no_reason : FailureReason → Bool
is_no_reason no_reason = true
is_no_reason _ = false

pub record Placement : Type 0 where
  pub player_id : String
  pub place : ℤ

pub record PublicReplay : Type 0 where
  pub format : String
  pub version : String
  pub payload : RawMessage

pub record PlayerSnapshot : Type 0 where
  pub visible_state : RawMessage
  pub last_action_status : ActionStatus
  pub stderr_bytes : ℕ

pub record Snapshot : Type 0 where
  pub match_id : String
  pub game_id : String
  pub game_version : String
  pub ruleset_version : String
  pub turn : ℤ
  pub status : MatchStatus
  pub game_state : RawMessage
  pub per_player : Dict PlayerSnapshot

pub record ExportedPlayerSnapshot : Type 0 where
  pub player_id : String
  pub last_action_status : ActionStatus

pub record ExportedSnapshot : Type 0 where
  pub match_id : String
  pub game_id : String
  pub game_version : String
  pub ruleset_version : String
  pub turn : ℤ
  pub status : MatchStatus
  pub public_state : RawMessage
  pub players : List ExportedPlayerSnapshot

-- The values of the string enumerations, as the wire spells them.
unfoldable pub decision_of : String → ActionDecision
decision_of s =
    if s is "accepted"
    then accepted
    else if s is "no_action"
    then no_action
    else if s is ""
    then no_decision
    else other_decision s

unfoldable pub reason_of : String → FailureReason
reason_of s =
    if s is ""
    then no_reason
    else if s is "invalid-timeout"
    then timeout
    else if s is "invalid-protocol-malformed"
    then malformed
    else if s is "invalid-protocol-mismatched-id"
    then mismatched_id
    else if s is "invalid-protocol-late-response"
    then late_response
    else if s is "invalid-illegal-action"
    then illegal_action
    else if s is "runtime-stopped"
    then runtime_stop
    else other_reason s
