-- ===== src/Match/Examples.antt =====
-- Runs of janken matches, and the properties of runs at them.
use ai_arena.Prelude.{
  arith, ℕ, suc, ◌+◌, ◌-◌, String, false, [], ◌∷◌, Option, none, some, ◌≡◌, refl, Result, ok, err,
  length, leb, if◌then◌else◌,
}
use ai_arena.Prelude.Int.{pos}
use ai_arena.Contract.{Player, MatchStatus, accepted, no_reason}
use ai_arena.Janken.Data.{Master, JankenError, zero_score, no_action_of}
use ai_arena.Janken.Master.{encode_action}
use ai_arena.Session.{SessionResult}
use ai_arena.Match.{terminal_error}
use ai_arena.Match.World.{World, Runner, RunError}
use ai_arena.Match.Events.{err_string}
use ai_arena.Match.Runs.{Outcome, new_runner, run}
use ai_arena.Match.JankenRuns.{janken_world, left, janken-Finite, janken_run_returns}
use ai_arena.Match.Progress.{run_returns}
use ai_arena.Match.RunTraces.{IsFinalLog}
use ai_arena.Match.Endings.{Ended}
use ai_arena.Match.Ends.{IsNew, Played, initialized, run_log, run_ended, terminal_error-run}
use ai_arena.Match.Payloads.{
  digits_before, decimal, status_text, decision_text, reason_text, mode_text, raw_json,
  encode_metadata, encode_player, encode_players, encode_placement, encode_result,
  encode_action_status, encode_decision_request, encode_ids, encode_session_result, text_map,
  encode_init_params, encode_turn_params, encode_game_over_params,
}
use ai_arena.Match.World.{◌>>=◌, ◌>>◌, done, raise, change, ask, attempt, configured_deadline}
use ai_arena.Match.Events.{
  must_marshal_payload, observe, append_event, run_error_text, err_string, append_runtime_exited,
  append_runtime_diagnostic, publish_to, publish_exported_snapshot,
}
use ai_arena.Match.Turns.{
  turn_request, execution, prepare_turn, execute_turn, append_late, append_turn_result, record_turn,
  settle_turn, prepare_turns, executions_from, settle_turns, run_simultaneous_step,
  run_sequential_step, run_step, take_step,
}
use ai_arena.Match.Running.{
  init_request, append_runtime_stop, refuse_unaccepted, initialize_player, initialize_players,
  or_initialization_failed, initialize_sessions, take_asked, decision_round, decision_rounds,
  run_decision_loop,
}
use ai_arena.Match.Finishing.{
  stage_payload, result_payload, keep_replay, capture_replay, capture_final_state, note_capture,
  visible_state_for_player, game_over_request, append_game_over, send_game_over, after_close,
  close_session, shutdown_session, shutdown_each, shutdown_sessions, after_master,
  shutdown_game_master, emit_as, emit_terminal_event,
}
use ai_arena.Match.Runs.{
  new_runner, end_as, exported_players, started_payload, is_canceled_error, classify_terminal_error,
  fill_players, build_record, notify_record, wind_down, deferred, conclude, start_run, run_loop,
  run,
}
use ai_arena.Match.Hosted.{complete_player, complete_players, current_snapshot, in_process}
use ai_arena.Janken.Master.{
  next_step, decode_action, playable, normalize_action, count_failure, played, tally_status,
  tally_statuses, merge, count_outcome, settle_player, settle, tally_of, outcomes_of, commit_round,
  apply_step,
}
use ai_arena.Janken.Views.{visible_state, init, snapshot, exported_snapshot}
use ai_arena.Janken.Placing.{comes_before, score_equal_for_placement, ordered, result}
use ai_arena.Janken.Rules.{
  is_playable_action, assign_each, collect_choices, winning_action_for_choices,
  resolve_valid_outcomes,
}
use ai_arena.Standings.Sorting.{place_in, sort_slice}
use ai_arena.Prelude.{lookup, lookup_or, insert, text_lt}
use ai_arena.Json.{
  same_name, struct_fields, assign_text, text_field, raw_field, insert_field, map_fields,
  list_items,
}
use ai_arena.Protocol.Wire.{omit_text, omit_raw}

abbrev ann : Player
ann = record { player_id = "ann"; ai_id = "a" }

abbrev bob : Player
bob = record { player_id = "bob"; ai_id = "b" }

abbrev start : Master
start = record {
  meta = record { game_id = "janken"; game_version = "2.1.0"; ruleset_version = "regular" };
  players = ann ∷ bob ∷ [];
  player_ids = "ann" ∷ "bob" ∷ [];
  rounds = 2;
  deadline = pos 100000000;
  resolved = 0;
  scores = ("ann", zero_score) ∷ ("bob", zero_score) ∷ [];
  self_history = ("ann", []) ∷ ("bob", []) ∷ [];
  public_history = [];
  last_action = ("ann", no_action_of "ann") ∷ ("bob", no_action_of "bob") ∷ [];
}

abbrev rock : SessionResult
rock = record {
  status = accepted;
  failure_reason = no_reason;
  payload = encode_action "rock";
  ignored_late_response_ids = [];
  runtime_error = "";
}

-- Players who play rock. The state counts their calls, and the context is canceled when there were
-- more than `limit`.
abbrev pub rocks : ℕ → World ℕ String
rocks limit = record {
  context_error = λ calls. if leb calls limit then none else some "context canceled";
  error_text = λ e. e;
  is_cancellation = λ _. false;
  quoted = λ t. t;
  parse_duration = λ _. none;
  environment = λ _. "";
  marshal_error = λ _. "";
  metadata = λ _. start.meta;
  initialize_match = λ s. (err "no game", s);
  next_decision_step = λ s. (err "no game", s);
  normalize = λ req status s. (ok status, s);
  apply_decision_results = λ step statuses s. (err "no game", s);
  current_snapshot = λ s. (err "no game", s);
  current_exported_snapshot = λ s. (err "no game", s);
  current_result = λ s. (err "no game", s);
  current_public_replay = none;
  shutdown = λ s. (ok tt, s);
  init = λ player req s. (rock, s + 1);
  turn = λ player req s. (rock, s + 1);
  game_over = λ player req s. (rock, s + 1);
  close = λ player s. (ok tt, s + 1);
  stderr = λ player s. record { output = ""; bytes_read = 0; truncated = false };
  turns = λ reqs s. (
    (λ i. (rock, if leb (s + length reqs) limit then none else some "context canceled")),
    s + length reqs,
  );
  observer = none;
}

abbrev as_text : JankenError → String
as_text _ = "janken"

abbrev game_world : ℕ → World (Master × ℕ) String
game_world limit = janken_world as_text "no replay" (rocks limit)

abbrev runner : Runner (Master × ℕ) String
runner = new_runner "m1" start.players (start, 0)

abbrev steps : ℕ
steps = suc (runner.world.0.rounds - runner.world.0.resolved)

abbrev outcome : ℕ → Outcome (Master × ℕ) String
outcome limit = (janken_run_returns as_text "no replay" (rocks limit) runner).0

runner-IsNew : IsNew (game_world 100) runner
unfolding new_runner
runner-IsNew = (refl, refl, refl)

abbrev status_of : Option (Outcome (Master × ℕ) String) → Option MatchStatus
status_of none = none
status_of (some o) = some o.match_record.status

run_returns_example : (o : Outcome (Master × ℕ) String) × (run (game_world 3) steps runner ≡ some o)
run_returns_example =
    run_returns (game_world 3) (left as_text "no replay" (rocks 3))
      (janken-Finite as_text "no replay" (rocks 3)) steps runner (omega arith)

run_log_example : IsFinalLog (outcome 100).match_record.status (outcome 100).match_record.event_log
run_log_example =
    run_log (game_world 100) steps runner (outcome 100) runner-IsNew
      (janken_run_returns as_text "no replay" (rocks 100) runner).1

run_ended_example :
    (result : Result (RunError String) (Unit {0})) × (after : Runner (Master × ℕ) String) × Played
      (game_world 3)
      steps
      (initialized (game_world 3) runner)
      result
      after
    × Ended
        (game_world 3)
        after
        result
        (outcome 3).run_err
        (outcome 3).match_record.status
        (outcome 3).runner.terminal_err
run_ended_example =
    run_ended (game_world 3) steps runner (outcome 3) runner-IsNew
      (janken_run_returns as_text "no replay" (rocks 3) runner).1

terminal_error-run_example :
    terminal_error (outcome 3).match_record
    ≡ err_string (game_world 3) (outcome 3).runner.terminal_err
terminal_error-run_example =
    terminal_error-run (game_world 3) steps runner (outcome 3) runner-IsNew
      (janken_run_returns as_text "no replay" (rocks 3) runner).1

janken_run_returns_example :
    (o : Outcome (Master × ℕ) String) × (run (game_world 3) steps runner ≡ some o)
janken_run_returns_example = janken_run_returns as_text "no replay" (rocks 3) runner

-- A match whose players answer is played to its end, or until the context is canceled.
test_match_ends :
    ◌≡◌ {A = Option MatchStatus × Option MatchStatus}
      (status_of (run (game_world 100) 3 runner), status_of (run (game_world 3) 3 runner))
      (some MatchStatus.completed, some MatchStatus.canceled)
unfolding digits_before decimal status_text decision_text reason_text mode_text raw_json
    encode_metadata encode_player encode_players encode_placement encode_result encode_action_status
    encode_decision_request encode_ids encode_session_result text_map encode_init_params
    encode_turn_params encode_game_over_params ◌>>=◌ ◌>>◌ done raise change ask attempt
    configured_deadline must_marshal_payload observe append_event run_error_text err_string
    append_runtime_exited append_runtime_diagnostic publish_to publish_exported_snapshot
    turn_request execution prepare_turn execute_turn append_late append_turn_result record_turn
    settle_turn prepare_turns executions_from settle_turns run_simultaneous_step run_sequential_step
    run_step take_step init_request append_runtime_stop refuse_unaccepted initialize_player
    initialize_players or_initialization_failed initialize_sessions take_asked decision_round
    decision_rounds run_decision_loop stage_payload result_payload keep_replay capture_replay
    capture_final_state note_capture visible_state_for_player game_over_request append_game_over
    send_game_over after_close close_session shutdown_session shutdown_each shutdown_sessions
    after_master shutdown_game_master emit_as emit_terminal_event new_runner end_as exported_players
    started_payload is_canceled_error classify_terminal_error fill_players build_record
    notify_record wind_down deferred conclude start_run run_loop run complete_player
    complete_players current_snapshot in_process next_step decode_action playable normalize_action
    count_failure played tally_status tally_statuses merge count_outcome settle_player settle
    tally_of outcomes_of commit_round apply_step visible_state init snapshot exported_snapshot
    comes_before score_equal_for_placement ordered result is_playable_action assign_each
    collect_choices winning_action_for_choices resolve_valid_outcomes place_in sort_slice lookup
    lookup_or insert text_lt same_name struct_fields assign_text text_field raw_field insert_field
    map_fields list_items omit_text omit_raw
test_match_ends = refl
