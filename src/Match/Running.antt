-- ===== src/Match/Running.antt =====
-- internal/platform/match/match.go: the initialization of a match and its decision loop.
use ai_arena.Prelude.{
  ℕ, zero, suc, String, List, [], ◌∷◌, Option, none, some, Dict, Bool, true, false, lookup_or,
  Result, ok, err,
}
use ai_arena.Prelude.Int.{milliseconds, ℤ, pos}
use ai_arena.Json.{RawMessage, no_bytes, object, end, field}
use ai_arena.Contract.{GameMetadata, Player, DecisionStep, MatchStatus, is_accepted}
use ai_arena.Session.{Request, SessionResult}
use ai_arena.Match.Payloads.{
  reason_text, encode_metadata, encode_session_result, encode_init_params,
}
use ai_arena.Match.World.{
  World, Runner, RunError, external, init_failed, Run, ◌>>=◌, ◌>>◌, done, raise, change, ask,
  attempt, check_context, configured_deadline, default_init_ack_deadline, init_ack_timeout_env,
}
use ai_arena.Match.Events.{
  Payload, map_payload, text_payload, is_runtime_stop, append_event, append_runtime_exited,
  append_runtime_diagnostic, publish_exported_snapshot,
}
use ai_arena.Match.Turns.{take_step}
use ai_arena.Prelude.{if◌then◌else◌}

abbrev pub result_payload : SessionResult → Payload
result_payload result = record { type_name = "session.Result"; json = encode_session_result result }

module _ {S E : Type 0} (w : World S E) where
  unfoldable pub init_request : String → GameMetadata → ℤ → Dict RawMessage → Player → Request
  unfolding encode_init_params
  init_request match_id meta deadline states player = record {
    id = "init";
    method = "init";
    params = encode_init_params (record {
      match_id = match_id;
      player_id = player.player_id;
      game_id = meta.game_id;
      game_version = meta.game_version;
      ruleset_version = meta.ruleset_version;
      deadline_ms = milliseconds deadline;
      state = lookup_or no_bytes player.player_id states;
    });
  }

  unfoldable pub append_runtime_stop : String → String → SessionResult → Runner S E → Runner S E
  unfolding append_runtime_diagnostic append_runtime_exited
  append_runtime_stop stage player_id result r =
      if is_runtime_stop result.failure_reason
      then append_runtime_exited w (pos 0) player_id (text_payload "stage" stage)
          (append_runtime_diagnostic w (pos 0) player_id result r)
      else r

  unfoldable pub refuse_unaccepted : Player → SessionResult → Run S E (Unit {0})
  unfolding append_event reason_text
  refuse_unaccepted player result = if is_accepted result.status then done tt else (do
    change (
        append_event w "session_initialization_failed" (pos 0) player.player_id
          (text_payload "reason" (reason_text result.failure_reason)))
    raise (init_failed player.player_id result.failure_reason))

  unfoldable pub initialize_player :
      String → GameMetadata → ℤ → Dict RawMessage → Player → Run S E (Unit {0})
  unfolding init_request append_event encode_session_result append_runtime_stop refuse_unaccepted
  initialize_player match_id meta deadline states player = do
    result ← ask (w.init player.player_id (init_request match_id meta deadline states player))
    change (append_event w "session_initialized" (pos 0) player.player_id (result_payload result))
    check_context w
    change (append_runtime_stop "init" player.player_id result)
    refuse_unaccepted player result

  unfoldable pub initialize_players :
      String → GameMetadata → ℤ → Dict RawMessage → List Player → Run S E (Unit {0})
  unfolding initialize_player
  initialize_players match_id meta deadline states [] = done tt
  initialize_players match_id meta deadline states (player ∷ more) = do
    initialize_player match_id meta deadline states player
    initialize_players match_id meta deadline states more

  -- A refused initialization is an event.
  unfoldable pub or_initialization_failed : {A : Type 0} → Result E A × S → Run S E A
  unfolding append_event
  or_initialization_failed (ok a, after) r = (ok a, record r { world = after })
  or_initialization_failed (err e, after) r = (
    err (external e),
    append_event w "game_master_initialization_failed" (pos 0) ""
        (text_payload "error" (w.error_text e)) (record r { world = after }),
  )

  unfoldable pub initialize_sessions : GameMetadata → Run S E (Unit {0})
  unfolding or_initialization_failed append_event encode_metadata initialize_players
      publish_exported_snapshot configured_deadline
  initialize_sessions meta = do
    change (λ r. record r { phase = MatchStatus.initializing })
    states ← (λ r. or_initialization_failed (w.initialize_match r.world) r)
    change (
        append_event w "game_master_initialized" (pos 0) ""
          (map_payload (object (field "game" (encode_metadata meta) end))))
    (λ r.
        initialize_players r.match_id meta
          (configured_deadline w init_ack_timeout_env default_init_ack_deadline) states r.players r)
    change (publish_exported_snapshot w)

  -- Of the step that was asked for, if there is one: whether there was.
  unfoldable pub take_asked : Option DecisionStep → Run S E Bool
  unfolding take_step
  take_asked none = done false
  take_asked (some step) = do take_step w step; done true

  -- A round of the loop.
  unfoldable pub decision_round : Run S E Bool
  unfolding take_asked
  decision_round = do check_context w; asked ← attempt w.next_decision_step; take_asked asked

  -- The loop, by fuel: `none` when that runs out.
  unfoldable pub decision_rounds :
      ℕ → Runner S E → Option (Result (RunError E) (Unit {0}) × Runner S E)
  unfolding decision_round
  decision_rounds zero r = none
  decision_rounds (suc fuel) r = elim (decision_round r).0 [
    | err e ↦ some (err e, (decision_round r).1)
    | ok more ↦ elim more [
      | false ↦ some (ok tt, (decision_round r).1)
      | true ↦ decision_rounds fuel (decision_round r).1
    ]
  ]

  unfoldable pub run_decision_loop :
      ℕ → Runner S E → Option (Result (RunError E) (Unit {0}) × Runner S E)
  unfolding decision_rounds
  run_decision_loop fuel r = decision_rounds fuel (record r { phase = MatchStatus.running })
