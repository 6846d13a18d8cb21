-- ===== src/Match/Payloads.antt =====
-- internal/platform/match/match.go and internal/platform/contract/payloads.go: the payloads of
-- events and requests, as encoding/json writes them. A struct keeps the order of its fields, a map
-- is sorted by its keys. `none` is a payload that json.Marshal refuses.
use ai_arena.Prelude.{
  ℕ, ◌+◌, ◌/◌, ◌%◌, zero, suc, get_elem?, String, List, [], ◌∷◌, Option, none, some, Dict,
  if◌then◌else◌, ltb,
}
use ai_arena.Prelude.Int.{milliseconds, ℤ, pos, negsuc}
use Prim.Native.String.{◌++◌ as text_append}
use ai_arena.Json.{
  Json, RawMessage, no_bytes, malformed_bytes, value, null, number, text, object, array, end, field,
  list_items, map_fields,
}
use ai_arena.Contract.{
  GameMetadata, Player, DecisionMode, sequential, simultaneous, other_mode, DecisionRequest,
  MatchStatus, ActionDecision, FailureReason, ActionStatus, Placement,
}
use ai_arena.Protocol.{Params}
use ai_arena.Protocol.Wire.{omit_text, omit_raw}
use ai_arena.Session.{SessionResult}

abbrev pub digits : List String
digits = "0" ∷ "1" ∷ "2" ∷ "3" ∷ "4" ∷ "5" ∷ "6" ∷ "7" ∷ "8" ∷ "9" ∷ []

abbrev pub digit : ℕ → String
digit n = elim (get_elem? digits n) [ none ↦ "" | some d ↦ d ]

-- The decimal digits of a number in front of a text, by fuel.
unfoldable pub digits_before : ℕ → ℕ → String → String
digits_before zero n after = after
digits_before (suc fuel) n after =
    let more = digits_before fuel (n / 10) (text_append (digit (n % 10)) after) in
    if ltb n 10 then text_append (digit n) after else more

-- %d of an int, which has at most twenty digits.
unfoldable pub decimal : ℤ → String
unfolding digits_before
decimal (pos n) = digits_before 20 n ""
decimal (negsuc n) = text_append "-" (digits_before 20 (n + 1) "")

unfoldable pub status_text : MatchStatus → String
status_text MatchStatus.starting = "starting"
status_text MatchStatus.initializing = "initializing"
status_text MatchStatus.running = "running"
status_text MatchStatus.finishing = "finishing"
status_text MatchStatus.completed = "completed"
status_text MatchStatus.failed = "failed"
status_text MatchStatus.canceled = "canceled"

unfoldable pub decision_text : ActionDecision → String
decision_text ActionDecision.accepted = "accepted"
decision_text ActionDecision.no_action = "no_action"
decision_text ActionDecision.no_decision = ""
decision_text (ActionDecision.other_decision t) = t

unfoldable pub reason_text : FailureReason → String
reason_text FailureReason.no_reason = ""
reason_text FailureReason.timeout = "invalid-timeout"
reason_text FailureReason.malformed = "invalid-protocol-malformed"
reason_text FailureReason.mismatched_id = "invalid-protocol-mismatched-id"
reason_text FailureReason.late_response = "invalid-protocol-late-response"
reason_text FailureReason.illegal_action = "invalid-illegal-action"
reason_text FailureReason.runtime_stop = "runtime-stopped"
reason_text (FailureReason.other_reason t) = t

unfoldable pub mode_text : DecisionMode → String
mode_text sequential = "sequential"
mode_text simultaneous = "simultaneous"
mode_text (other_mode t) = t

-- A json.RawMessage without omitempty; a nil one is null.
unfoldable pub raw_json : RawMessage → Option Json
raw_json no_bytes = some null
raw_json malformed_bytes = none
raw_json (value j) = some j

unfoldable pub encode_metadata : GameMetadata → Json
encode_metadata g = object (
    field "game_id" (text g.game_id) (
      field "game_version" (text g.game_version)
        (field "ruleset_version" (text g.ruleset_version) end)))

unfoldable pub encode_player : Player → Json
encode_player p = object (field "player_id" (text p.player_id) (field "ai_id" (text p.ai_id) end))

-- A list of players that is not nil.
unfoldable pub encode_players : List Player → Json
unfolding encode_player
encode_players ps = array (list_items encode_player ps)

unfoldable pub encode_placement : Placement → Json
encode_placement p =
    object (field "player_id" (text p.player_id) (field "place" (number p.place) end))

-- game.MatchResult.
unfoldable pub encode_result : List Placement → Json
unfolding encode_placement
encode_result ps = object (field "placements" (array (list_items encode_placement ps)) end)

unfoldable pub encode_action_status : ActionStatus → Option Json
unfolding omit_raw omit_text decision_text reason_text
encode_action_status a = elim (omit_raw "action" a.action end) [
  | none ↦ none
  | some fs ↦ some (
      object (
        field "player_id" (text a.player_id) (
          field "action_status" (text (decision_text a.action_status))
            (omit_text "failure_reason" (reason_text a.failure_reason) fs))))
]

unfoldable pub encode_decision_request : DecisionRequest → Option Json
unfolding omit_raw
encode_decision_request r =
    elim (omit_raw "legal_action_hint" r.legal_action_hint
      (field "deadline_ms" (number (milliseconds r.deadline)) end)) [
        | none ↦ none
        | some hinted ↦ elim (omit_raw "visible_state" r.visible_state hinted) [
          | none ↦ none
          | some fs ↦ some (object (field "player_id" (text r.player_id) fs))
        ]
      ]

-- A nil list of ids, which the session returns when it ignored none, is null.
unfoldable pub encode_ids : List String → Json
encode_ids [] = null
encode_ids (id ∷ ids) = array (list_items text (id ∷ ids))

-- session.Result, which has no tags.
unfoldable pub encode_session_result : SessionResult → Option Json
unfolding raw_json decision_text reason_text encode_ids
encode_session_result r = elim (raw_json r.payload) [
  | none ↦ none
  | some payload ↦ some (
      object (
        field "Status" (text (decision_text r.status)) (
          field "FailureReason" (text (reason_text r.failure_reason)) (
            field "Payload" payload (
              field "IgnoredLateResponseIDs" (encode_ids r.ignored_late_response_ids)
                (field "RuntimeError" (text r.runtime_error) end))))))
]

-- A map[string]any whose values are texts.
unfoldable pub text_map : Dict String → Json
text_map m = object (map_fields text m)

pub record InitParams : Type 0 where
  pub match_id : String
  pub player_id : String
  pub game_id : String
  pub game_version : String
  pub ruleset_version : String
  pub deadline_ms : ℤ
  pub state : RawMessage

pub record TurnParams : Type 0 where
  pub turn : ℤ
  pub visible_state : RawMessage
  pub legal_action_hint : RawMessage
  pub deadline_ms : ℤ

pub record GameOverParams : Type 0 where
  pub match_id : String
  pub final_visible_state : RawMessage
  pub summary : List Placement
  pub shutdown_after_ms : ℤ

abbrev pub params_of : Option Json → Params
params_of none = Params.unencodable
params_of (some j) = Params.encoded j

unfoldable pub encode_init_params : InitParams → Params
unfolding raw_json
encode_init_params p = params_of (elim (raw_json p.state) [
  | none ↦ none
  | some state ↦ some (
      object (
        field "match_id" (text p.match_id) (
          field "player_id" (text p.player_id) (
            field "game_id" (text p.game_id) (
              field "game_version" (text p.game_version) (
                field "ruleset_version" (text p.ruleset_version)
                  (field "deadline_ms" (number p.deadline_ms) (field "state" state end))))))))
])

unfoldable pub encode_turn_params : TurnParams → Params
unfolding raw_json
encode_turn_params p = params_of (elim (raw_json p.visible_state) [
  | none ↦ none
  | some visible ↦ elim (raw_json p.legal_action_hint) [
    | none ↦ none
    | some hint ↦ some (
        object (
          field "turn" (number p.turn) (
            field "visible_state" visible
              (field "legal_action_hint" hint (field "deadline_ms" (number p.deadline_ms) end)))))
  ]
])

unfoldable pub encode_game_over_params : GameOverParams → Params
unfolding raw_json encode_result
encode_game_over_params p = params_of (elim (raw_json p.final_visible_state) [
  | none ↦ none
  | some visible ↦ some (
      object (
        field "match_id" (text p.match_id) (
          field "final_visible_state" visible (
            field "summary" (encode_result p.summary)
              (field "shutdown_after_ms" (number p.shutdown_after_ms) end)))))
])
