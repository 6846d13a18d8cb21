-- ===== src/Match/StepTraces.antt =====
-- internal/platform/match/match.go: the initialization and the decision loop keep the log in order.
use ai_arena.Prelude.{String, List, [], ◌∷◌, refl, insert}
use ai_arena.Prelude.Int.{ℤ}
use ai_arena.Contract.{DecisionRequest, DecisionStep, DecisionMode, FailureReason}
use ai_arena.Match.World.{World}
use ai_arena.Match.Events.{text_payload, append_event, append_runtime_diagnostic}
use ai_arena.Match.Turns.{
  TurnExecution, request_payload, status_payload, prepare_turn, prepare_turns, execute_turn,
  append_late, append_turn_result, record_turn, settle_turn, settle_turns, run_simultaneous_step,
  run_sequential_step, run_step, take_step,
}
use ai_arena.Match.Traces.{
  Keeps, KeepsLog, bind-KeepsLog, then-KeepsLog, change-KeepsLog, done-KeepsLog, raise-KeepsLog,
  ask-KeepsLog, attempt-KeepsLog, append_event-Keeps, append_runtime_exited-Keeps,
  append_runtime_diagnostic-Keeps, publish_exported_snapshot-Keeps,
}

module _ {S E : Type 0} (w : World S E) where
  prepare_turn-Keeps : (turn : ℤ) (req : DecisionRequest) → Keeps (prepare_turn w turn req)
  unfolding prepare_turn
  prepare_turn-Keeps turn req st te r h =
      append_event-Keeps w "turn_requested" turn req.player_id (request_payload req) refl st te
        (record r { last_seen = insert req.player_id req.visible_state r.last_seen }) h

  prepare_turns-Keeps : (turn : ℤ) (reqs : List DecisionRequest) → Keeps (prepare_turns w turn reqs)
  unfolding prepare_turns
  prepare_turns-Keeps turn [] st te r h = h
  prepare_turns-Keeps turn (req ∷ more) st te r h =
      prepare_turns-Keeps turn more st te (prepare_turn w turn req r)
        (prepare_turn-Keeps turn req st te r h)

  append_late-Keeps :
      (turn : ℤ) (player_id : String) (ids : List String) → Keeps (append_late w turn player_id ids)
  unfolding append_late
  append_late-Keeps turn player_id [] st te r h = h
  append_late-Keeps turn player_id (id ∷ more) st te r h =
      append_late-Keeps turn player_id more st te
        (append_event w "late_response_ignored" turn player_id (text_payload "response_id" id) r)
        (append_event-Keeps w "late_response_ignored" turn player_id (text_payload "response_id" id)
          refl st te r h)

  append_turn_result-Keeps :
      (turn : ℤ) (x : TurnExecution E) (reason : FailureReason)
      → Keeps (append_turn_result w turn x reason)
  unfolding append_turn_result
  append_turn_result-Keeps turn x FailureReason.no_reason st te r h =
      append_event-Keeps w "turn_result" turn x.request.player_id (status_payload x.action_status)
        refl st te r h
  append_turn_result-Keeps turn x FailureReason.timeout st te r h =
      append_event-Keeps w "turn_timeout" turn x.request.player_id (status_payload x.action_status)
        refl st te r h
  append_turn_result-Keeps turn x FailureReason.runtime_stop st te r h =
      append_runtime_exited-Keeps w turn x.request.player_id (status_payload x.action_status) st te
        (append_runtime_diagnostic w turn x.request.player_id x.result r)
        (append_runtime_diagnostic-Keeps w turn x.request.player_id x.result st te r h)
  append_turn_result-Keeps turn x _ st te r h =
      append_event-Keeps w "protocol_error" turn x.request.player_id
        (status_payload x.action_status) refl st te r h

  record_turn-Keeps : (turn : ℤ) (x : TurnExecution E) → Keeps (record_turn w turn x)
  unfolding record_turn
  record_turn-Keeps turn x st te r h =
      let seen = record r {
        last_result = insert x.request.player_id x.action_status r.last_result;
      } in
      let late = x.result.ignored_late_response_ids in
      append_turn_result-Keeps turn x x.result.failure_reason st te
        (append_late w turn x.request.player_id late seen)
        (append_late-Keeps turn x.request.player_id late st te seen h)

  settle_turn-KeepsLog : (turn : ℤ) (x : TurnExecution E) → KeepsLog (settle_turn w turn x)
  unfolding settle_turn
  settle_turn-KeepsLog turn x =
      then-KeepsLog (record { keeps = λ st te r h. h })
        (bind-KeepsLog (attempt-KeepsLog _) λ status.
          then-KeepsLog
            (change-KeepsLog _ (record_turn-Keeps turn (record x { action_status = status })))
            (done-KeepsLog _))

  settle_turns-KeepsLog :
      (turn : ℤ) (xs : List (TurnExecution E)) → KeepsLog (settle_turns w turn xs)
  unfolding settle_turns
  settle_turns-KeepsLog turn [] = (done-KeepsLog _)
  settle_turns-KeepsLog turn (x ∷ xs) =
      bind-KeepsLog (settle_turn-KeepsLog turn x)
        λ status. bind-KeepsLog (settle_turns-KeepsLog turn xs) λ statuses. (done-KeepsLog _)

  run_simultaneous_step-KeepsLog : (step : DecisionStep) → KeepsLog (run_simultaneous_step w step)
  unfolding run_simultaneous_step
  run_simultaneous_step-KeepsLog step =
      then-KeepsLog (change-KeepsLog _ (prepare_turns-Keeps step.turn step.requests))
        (bind-KeepsLog (ask-KeepsLog _) λ results. settle_turns-KeepsLog step.turn _)

  run_sequential_step-KeepsLog :
      (step : DecisionStep) (reqs : List DecisionRequest)
      → KeepsLog (run_sequential_step w step reqs)
  unfolding run_sequential_step execute_turn
  run_sequential_step-KeepsLog step [] = (raise-KeepsLog _)
  run_sequential_step-KeepsLog step (req ∷ []) =
      then-KeepsLog (change-KeepsLog _ (prepare_turn-Keeps step.turn req)) (
        bind-KeepsLog (record { keeps = λ st te r h. h })
          λ x. bind-KeepsLog (settle_turn-KeepsLog step.turn x) λ status. (done-KeepsLog _))
  run_sequential_step-KeepsLog step (req ∷ also ∷ more) = (raise-KeepsLog _)

  run_mode-KeepsLog :
      (turn : ℤ) (mode : DecisionMode) (reqs : List DecisionRequest)
      → KeepsLog (run_step w (record { turn = turn; mode = mode; requests = reqs }))
  unfolding run_step
  run_mode-KeepsLog turn DecisionMode.simultaneous reqs =
      run_simultaneous_step-KeepsLog
        (record { turn = turn; mode = DecisionMode.simultaneous; requests = reqs })
  run_mode-KeepsLog turn DecisionMode.sequential reqs =
      run_sequential_step-KeepsLog
        (record { turn = turn; mode = DecisionMode.sequential; requests = reqs }) reqs
  run_mode-KeepsLog turn (DecisionMode.other_mode m) reqs = (raise-KeepsLog _)

  pub take_step-KeepsLog : (step : DecisionStep) → KeepsLog (take_step w step)
  unfolding take_step
  take_step-KeepsLog step =
      bind-KeepsLog (run_mode-KeepsLog step.turn step.mode step.requests) λ outcomes.
        then-KeepsLog (attempt-KeepsLog _) (change-KeepsLog _ (publish_exported_snapshot-Keeps w))
