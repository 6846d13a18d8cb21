-- ===== src/Match.antt =====
-- internal/platform/match/match.go: the record of a match and its events; and what
-- internal/platform/artifacts/artifacts.go reads from it.
pub mod Payloads
pub mod World
pub mod Events
pub mod Turns
pub mod Running
pub mod Finishing
pub mod Runs
pub mod Traces
pub mod StepTraces
pub mod EndTraces
pub mod RunTraces
pub mod Endings
pub mod Ends
pub mod Calm
pub mod CalmSteps
pub mod Progress
pub mod Hosted
pub mod JankenRuns
pub mod Tellings
pub mod StepTellings
pub mod TellingExamples
pub mod Examples
use ai_arena.Prelude.{String, true, ◌||◌, List, [], ◌∷◌, Option, none, some, ◌is◌, if◌then◌else◌}
use ai_arena.Prelude.Int.{ℤ}
use ai_arena.Json.{RawMessage, struct_fields, text_field}
use ai_arena.Contract.{
  GameMetadata, Player, MatchStatus, Placement, Snapshot, ExportedSnapshot, PublicReplay,
}

pub record Event : Type 0 where
  pub seq : ℤ
  pub kind : String
  pub turn : ℤ
  pub player_id : String
  pub payload : RawMessage

pub record MatchRecord : Type 0 where
  pub match_id : String
  pub game : GameMetadata
  pub players : List Player
  pub status : MatchStatus
  pub placements : List Placement
  pub event_log : List Event
  pub snapshot : Snapshot
  pub exported_snapshot : ExportedSnapshot
  pub public_replay : Option PublicReplay

-- The error of one event, if it is the end of a match and its payload decodes.
unfoldable pub event_error : Event → Option String
event_error e =
    if e.kind is "match_failed" || e.kind is "match_canceled"
    then elim (struct_fields e.payload) [
      | none ↦ none
      | some fs ↦
          let (error, fine) = text_field "error" ("", true) fs in if fine then some error else none
    ]
    else none

-- The error of the last such event.
unfoldable pub last_error : List Event → Option String
last_error [] = none
last_error (e ∷ es) = elim (last_error es) [ some error ↦ some error | none ↦ event_error e ]

unfoldable pub terminal_error : MatchRecord → String
terminal_error r = elim (last_error r.event_log) [ some error ↦ error | none ↦ "" ]

-- The summary without the paths of the artifacts.
pub record ResultSummary : Type 0 where
  pub match_id : String
  pub game_id : String
  pub game_version : String
  pub ruleset_version : String
  pub status : MatchStatus
  pub turn : ℤ
  pub placements : List Placement
  pub error : String
