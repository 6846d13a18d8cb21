-- ===== src/Match/Turns.antt =====
-- internal/platform/match/match.go: the turns of a decision step.
use ai_arena.Prelude.{ℕ, zero, suc, String, List, [], ◌∷◌, map, Option, insert, length, ok}
use ai_arena.Prelude.Int.{milliseconds, ℤ}
use Prim.Native.String.{◌++◌ as text_append}
use ai_arena.Contract.{
  DecisionRequest, DecisionStep, sequential, simultaneous, FailureReason, no_reason, timeout,
  runtime_stop, ActionStatus,
}
use ai_arena.Session.{Request, SessionResult}
use ai_arena.Match.Payloads.{
  text_map, decimal, encode_action_status, encode_decision_request, encode_turn_params,
}
use ai_arena.Match.World.{
  World, Runner, Run, ◌>>=◌, ◌>>◌, done, raise, change, ask, attempt, context_result,
  not_one_request, unsupported_mode,
}
use ai_arena.Match.Events.{
  Payload, text_payload, append_event, append_runtime_exited, append_runtime_diagnostic,
  publish_exported_snapshot,
}

pub record TurnExecution (E : Type 0) : Type 0 where
  pub request : DecisionRequest
  pub result : SessionResult
  pub action_status : ActionStatus
  pub error : Option E

abbrev pub request_payload : DecisionRequest → Payload
request_payload req = record {
  type_name = "gamemaster.DecisionRequest";
  json = encode_decision_request req;
}

abbrev pub status_payload : ActionStatus → Payload
status_payload status = record {
  type_name = "gamemaster.ActionStatus";
  json = encode_action_status status;
}

unfoldable pub turn_request : ℤ → DecisionRequest → Request
unfolding decimal encode_turn_params
turn_request turn req = record {
  id = text_append "turn-" (text_append (decimal turn) (text_append "-" req.player_id));
  method = "turn";
  params = encode_turn_params (record {
    turn = turn;
    visible_state = req.visible_state;
    legal_action_hint = req.legal_action_hint;
    deadline_ms = milliseconds req.deadline;
  });
}

-- The execution of a request, with what the session and then ctx.Err() returned.
unfoldable pub execution :
    {E : Type 0} → DecisionRequest → SessionResult → Option E → TurnExecution E
execution req result error = record {
  request = req;
  result = result;
  action_status = record {
    player_id = req.player_id;
    action_status = result.status;
    failure_reason = result.failure_reason;
    action = result.payload;
  };
  error = error;
}

module _ {S E : Type 0} (w : World S E) where
  unfoldable pub prepare_turn : ℤ → DecisionRequest → Runner S E → Runner S E
  unfolding append_event encode_decision_request
  prepare_turn turn req r =
      append_event w "turn_requested" turn req.player_id (request_payload req)
        (record r { last_seen = insert req.player_id req.visible_state r.last_seen })

  unfoldable pub execute_turn : ℤ → DecisionRequest → Run S E (TurnExecution E)
  unfolding turn_request execution
  execute_turn turn req r =
      let (result, after) = w.turn req.player_id (turn_request turn req) r.world in
      (ok (execution req result (w.context_error after)), record r { world = after })

  unfoldable pub append_late : ℤ → String → List String → Runner S E → Runner S E
  unfolding append_event text_map
  append_late turn player_id [] r = r
  append_late turn player_id (late ∷ more) r =
      append_late turn player_id more
        (append_event w "late_response_ignored" turn player_id (text_payload "response_id" late) r)

  unfoldable pub append_turn_result : ℤ → TurnExecution E → FailureReason → Runner S E → Runner S E
  unfolding append_event append_runtime_diagnostic append_runtime_exited encode_action_status
  append_turn_result turn exec no_reason r =
      append_event w "turn_result" turn exec.request.player_id (status_payload exec.action_status) r
  append_turn_result turn exec timeout r =
      append_event w "turn_timeout" turn exec.request.player_id (status_payload exec.action_status)
        r
  append_turn_result turn exec runtime_stop r =
      append_runtime_exited w turn exec.request.player_id (status_payload exec.action_status)
        (append_runtime_diagnostic w turn exec.request.player_id exec.result r)
  append_turn_result turn exec _ r =
      append_event w "protocol_error" turn exec.request.player_id
        (status_payload exec.action_status) r

  unfoldable pub record_turn : ℤ → TurnExecution E → Runner S E → Runner S E
  unfolding append_late append_turn_result
  record_turn turn exec r = append_turn_result turn exec exec.result.failure_reason (
      append_late turn exec.request.player_id exec.result.ignored_late_response_ids
        (record r { last_result = insert exec.request.player_id exec.action_status r.last_result }))

  -- After the turn: its error, or the normalized status, recorded.
  unfoldable pub settle_turn : ℤ → TurnExecution E → Run S E ActionStatus
  unfolding record_turn
  settle_turn turn exec = do
    (λ r. (context_result exec.error, r))
    status ← attempt (w.normalize exec.request exec.action_status)
    change (record_turn turn (record exec { action_status = status }))
    done status

  unfoldable pub prepare_turns : ℤ → List DecisionRequest → Runner S E → Runner S E
  unfolding prepare_turn
  prepare_turns turn [] r = r
  prepare_turns turn (req ∷ more) r = prepare_turns turn more (prepare_turn turn req r)

  -- executions[i] of the requests from an index on.
  unfoldable pub executions_from :
      (ℕ → SessionResult × Option E) → ℕ → List DecisionRequest → List (TurnExecution E)
  unfolding execution
  executions_from results i [] = []
  executions_from results i (req ∷ more) =
      execution req (results i).0 (results i).1 ∷ executions_from results (suc i) more

  unfoldable pub settle_turns : ℤ → List (TurnExecution E) → Run S E (List ActionStatus)
  unfolding settle_turn
  settle_turns turn [] = done []
  settle_turns turn (exec ∷ more) = do
    status ← settle_turn turn exec
    statuses ← settle_turns turn more
    done (status ∷ statuses)

  unfoldable pub run_simultaneous_step : DecisionStep → Run S E (List ActionStatus)
  unfolding prepare_turns turn_request executions_from settle_turns
  run_simultaneous_step step = do
    change (prepare_turns step.turn step.requests)
    results ← ask (w.turns (map (λ req. (req.player_id, turn_request step.turn req)) step.requests))
    settle_turns step.turn (executions_from results zero step.requests)

  unfoldable pub run_sequential_step :
      DecisionStep → List DecisionRequest → Run S E (List ActionStatus)
  unfolding prepare_turn execute_turn settle_turn
  run_sequential_step step (req ∷ []) = do
    change (prepare_turn step.turn req)
    exec ← execute_turn step.turn req
    status ← settle_turn step.turn exec
    done (status ∷ [])
  run_sequential_step step reqs = raise (not_one_request (length reqs))

  -- The outcomes of a step, by its mode.
  unfoldable pub run_step : DecisionStep → Run S E (List ActionStatus)
  unfolding run_simultaneous_step run_sequential_step
  run_step step = elim step.mode [
    | simultaneous ↦ run_simultaneous_step step
    | sequential ↦ run_sequential_step step step.requests
    | other ↦ raise (unsupported_mode other)
  ]

  -- A round of the loop whose step is given.
  unfoldable pub take_step : DecisionStep → Run S E (Unit {0})
  unfolding run_step publish_exported_snapshot
  take_step step = do
    outcomes ← run_step step
    attempt (w.apply_decision_results step outcomes)
    change (publish_exported_snapshot w)
