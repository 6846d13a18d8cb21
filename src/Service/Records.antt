-- ===== src/Service/Records.antt =====
-- internal/platform/service/types.go: the records of the service and their lifecycle.
-- A time is a number of nanoseconds.
use ai_arena.Prelude.{
  ℕ, String, Bool, true, false, List, Option, none, some, ◌is◌, if◌then◌else◌, Dict,
}
use ai_arena.Prelude.Int.{ℤ}
use ai_arena.Contract.{GameMetadata, MatchStatus}

pub data RunKind : Type 0 where
  initial : RunKind
  retry : RunKind
  rerun : RunKind
  -- Any other text.
  other_kind : String → RunKind

pub record SubmittedPlayer : Type 0 where
  pub player_id : String
  pub bot_id : String
  pub bot_name : String
  pub ai_submission_id : String
  pub artifact_ref : String
  pub artifact_id : String

pub record MatchSubmission : Type 0 where
  pub run_id : String
  pub match_id : String
  pub game : GameMetadata
  pub game_artifact_id : String
  pub players : List SubmittedPlayer
  pub output_dir : String
  pub attempt_count : ℤ
  pub parent_run_id : String
  pub run_kind : RunKind
  pub official : Bool

pub data LifecycleState : Type 0 where
  queued : LifecycleState
  leased : LifecycleState
  running : LifecycleState
  persisting : LifecycleState
  completed : LifecycleState
  failed : LifecycleState
  canceled : LifecycleState
  -- Any other text.
  unknown_state : String → LifecycleState

pub record WorkerLease : Type 0 where
  pub worker_id : String
  pub deadline : ℕ
  pub last_heartbeat : ℕ

pub record TerminalArtifacts : Type 0 where
  pub match_dir : String
  pub record_path : String
  pub result_summary_path : String
  pub player_stderr_paths : Dict String
  pub match_status : MatchStatus
  pub error : String
  pub public_replay_path : String
  pub public_replay_format : String
  pub public_replay_version : String
  pub public_replay_size : ℤ
  pub public_replay_digest : String

pub record QueueRecord : Type 0 where
  pub submission : MatchSubmission
  pub state : LifecycleState
  pub completed_at : Option ℕ
  pub lease : Option WorkerLease
  pub terminal : Option TerminalArtifacts

-- from == to
abbrev pub same_state : LifecycleState → LifecycleState → Bool
same_state queued queued = true
same_state leased leased = true
same_state running running = true
same_state persisting persisting = true
same_state completed completed = true
same_state failed failed = true
same_state canceled canceled = true
same_state (unknown_state a) (unknown_state b) = a is b
same_state _ _ = false

pub data TransitionError : Type 0 where
  terminal_state : TransitionError
  unknown_lifecycle_state : TransitionError
  invalid_transition : TransitionError

-- The switch of ValidateTransition, on two different states.
abbrev pub validate_step : LifecycleState → LifecycleState → Option TransitionError
validate_step queued leased = none
validate_step queued canceled = none
validate_step queued _ = some invalid_transition
validate_step leased running = none
validate_step leased failed = none
validate_step leased _ = some invalid_transition
validate_step running persisting = none
validate_step running failed = none
validate_step running _ = some invalid_transition
validate_step persisting completed = none
validate_step persisting failed = none
validate_step persisting _ = some invalid_transition
validate_step completed _ = some terminal_state
validate_step failed _ = some terminal_state
validate_step canceled _ = some terminal_state
validate_step (unknown_state s) _ = some unknown_lifecycle_state

-- `none` when the transition is allowed.
abbrev pub validate_transition : LifecycleState → LifecycleState → Option TransitionError
validate_transition from to = if same_state from to then none else validate_step from to
