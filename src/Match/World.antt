-- ===== src/Match/World.antt =====
-- internal/platform/match/match.go: the runner and what it talks to. The game master, the player
-- sessions, the context and the observer are the interfaces of a world, whose state each call
-- changes; the state holds the time as well, and with it the deadlines of the contexts. Every player
-- has a session.
use ai_arena.Prelude.{
  ℕ, String, Bool, List, Option, none, some, Dict, Result, ok, err, ◌is◌, if◌then◌else◌,
}
use ai_arena.Prelude.Int.{ℤ, pos, is_positive}
use ai_arena.Json.{RawMessage}
use ai_arena.Contract.{
  GameMetadata, Player, DecisionRequest, DecisionStep, MatchStatus, FailureReason, ActionStatus,
  Placement, PublicReplay, Snapshot, ExportedSnapshot, DecisionMode,
}
use ai_arena.Session.{Request, SessionResult}
use ai_arena.Match.{Event, MatchRecord}

-- runtime.StderrSnapshot.
pub record StderrSnapshot : Type 0 where
  pub output : String
  pub bytes_read : ℕ
  pub truncated : Bool

-- Observer, and the method of ExportedSnapshotObserver if it has that too.
pub record Observer (S : Type 0) : Type 0 where
  pub on_event : Event → S → S
  pub on_record_built : MatchRecord → S → S
  pub on_exported_snapshot : Option (ExportedSnapshot → S → S)

pub record World (S E : Type 0) : Type 0 where
  -- ctx.Err(), err.Error(), and errors.Is with the errors of package context.
  pub context_error : S → Option E
  pub error_text : E → String
  pub is_cancellation : E → Bool
  -- %q, time.ParseDuration in nanoseconds, and os.Getenv.
  pub quoted : String → String
  pub parse_duration : String → Option ℤ
  pub environment : String → String
  -- The error of json.Marshal on a payload of a type.
  pub marshal_error : String → String
  -- gamemaster.Session, with the method of PublicReplaySession if it has that.
  pub metadata : S → GameMetadata
  pub initialize_match : S → Result E (Dict RawMessage) × S
  pub next_decision_step : S → Result E (Option DecisionStep) × S
  pub normalize : DecisionRequest → ActionStatus → S → Result E ActionStatus × S
  pub apply_decision_results : DecisionStep → List ActionStatus → S → Result E (Unit {0}) × S
  pub current_snapshot : S → Result E Snapshot × S
  pub current_exported_snapshot : S → Result E ExportedSnapshot × S
  pub current_result : S → Result E (List Placement) × S
  pub current_public_replay : Option (S → Result E PublicReplay × S)
  pub shutdown : S → Result E (Unit {0}) × S
  -- PlayerSession, by the id of the player.
  pub init : String → Request → S → SessionResult × S
  pub turn : String → Request → S → SessionResult × S
  pub game_over : String → Request → S → SessionResult × S
  pub close : String → S → Result E (Unit {0}) × S
  pub stderr : String → S → StderrSnapshot
  -- Turns of several players at once, each in a goroutine that reads ctx.Err() at its end: the
  -- result and the error of each by its index, whatever the interleaving.
  pub turns : List (String × Request) → S → (ℕ → SessionResult × Option E) × S
  pub observer : Option (Observer S)

pub data RunError (E : Type 0) : Type 0 where
  external : E → RunError E
  init_failed : String → FailureReason → RunError E
  not_one_request : ℕ → RunError E
  unsupported_mode : DecisionMode → RunError E

pub record Runner (S E : Type 0) : Type 0 where
  pub match_id : String
  pub players : List Player
  -- The state of master, sessions, observer and context.
  pub world : S
  pub events : List Event
  pub next_seq : ℕ
  pub last_seen : Dict RawMessage
  pub last_result : Dict ActionStatus
  pub phase : MatchStatus
  pub status : MatchStatus
  pub terminal_err : Option (RunError E)
  pub final_result : List Placement
  pub final_snapshot : Snapshot
  pub final_exported : ExportedSnapshot
  pub public_replay : Option PublicReplay

-- A function of the runner that can return an error.
abbrev pub Run : Type 0 → Type 0 → Type 0 → Type 0
Run S E A = Runner S E → Result (RunError E) A × Runner S E

-- v, err := f(); if err != nil { return err }
abbrev pub external_result : {E A : Type 0} → Result E A → Result (RunError E) A
external_result (ok a) = ok a
external_result (err e) = err (external e)

-- if err := ctx.Err(); err != nil { return err }
abbrev pub context_result : {E : Type 0} → Option E → Result (RunError E) (Unit {0})
context_result none = ok tt
context_result (some e) = err (external e)

module _ {S E : Type 0} where
  abbrev pub then_run :
      {A B : Type 0}
      → Result (RunError E) A
      → Runner S E
      → (A → Run S E B)
      → Result (RunError E) B × Runner S E
  then_run (ok a) r k = k a r
  then_run (err e) r k = (err e, r)

  infixl 5 ◌>>=◌ ◌>>◌
  unfoldable pub ◌>>=◌ : {A B : Type 0} → Run S E A → (A → Run S E B) → Run S E B
  (m >>= k) r = then_run (m r).0 (m r).1 k

  unfoldable pub ◌>>◌ : {B : Type 0} → Run S E (Unit {0}) → Run S E B → Run S E B
  unfolding ◌>>=◌
  m >> k = m >>= λ _. k

  unfoldable pub done : {A : Type 0} → A → Run S E A
  done a r = (ok a, r)

  unfoldable pub raise : {A : Type 0} → RunError E → Run S E A
  raise e r = (err e, r)

  -- A change of the runner.
  unfoldable pub change : (Runner S E → Runner S E) → Run S E (Unit {0})
  change f r = (ok tt, f r)

  -- What an interface returns.
  unfoldable pub ask : {A : Type 0} → (S → A × S) → Run S E A
  ask f r = (ok (f r.world).0, record r { world = (f r.world).1 })

  unfoldable pub attempt : {A : Type 0} → (S → Result E A × S) → Run S E A
  attempt f r = (external_result (f r.world).0, record r { world = (f r.world).1 })

  abbrev pub check_context : World S E → Run S E (Unit {0})
  check_context w r = (context_result (w.context_error r.world), r)

-- configuredInitAckDeadline and configuredGameOverAckDeadline, by the variable and its default.
unfoldable pub configured_deadline : {S E : Type 0} → World S E → String → ℤ → ℤ
configured_deadline w variable fallback =
    let set = w.environment variable in
    if set is "" then fallback else elim (w.parse_duration set) [
      | none ↦ fallback
      | some parsed ↦ if is_positive parsed then parsed else fallback
    ]

abbrev pub default_init_ack_deadline : ℤ
default_init_ack_deadline = pos 1500000000

abbrev pub default_game_over_ack_deadline : ℤ
default_game_over_ack_deadline = pos 3000000000

abbrev pub init_ack_timeout_env : String
init_ack_timeout_env = "AI_ARENA_INIT_ACK_TIMEOUT"

abbrev pub game_over_timeout_env : String
game_over_timeout_env = "AI_ARENA_GAME_OVER_TIMEOUT"
