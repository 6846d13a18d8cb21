-- ===== src/Match/CalmSteps.antt =====
-- internal/platform/match/match.go: the initialization and the decision steps leave as it is what their calls leave.
use ai_arena.Prelude.{
  String, List, [], ◌∷◌, Option, none, some, ◌≡◌, refl, Result, ok, err, Result-cases, Bool-cases,
  Option-cases, inl, inr, ◌is◌, insert, Dict,
}
use ai_arena.Prelude.Int.{ℤ, pos}
use ai_arena.Json.{RawMessage, object, field, end}
use ai_arena.Contract.{
  GameMetadata, Player, DecisionRequest, DecisionStep, DecisionMode, FailureReason,
  ExportedSnapshot, is_accepted,
}
use ai_arena.Session.{SessionResult}
use ai_arena.Match.Payloads.{reason_text, encode_metadata}
use ai_arena.Match.World.{
  configured_deadline, default_init_ack_deadline, init_ack_timeout_env, World, Observer,
  check_context,
}
use ai_arena.Match.Events.{
  Payload, map_payload, text_payload, is_runtime_stop, append_event, append_runtime_exited,
  append_runtime_diagnostic, diagnostic_payload, publish_to, publish_exported_snapshot,
}
use ai_arena.Match.Turns.{
  TurnExecution, prepare_turn, prepare_turns, execute_turn, append_late, append_turn_result,
  record_turn, settle_turn, settle_turns, run_simultaneous_step, run_sequential_step, run_step,
  request_payload, status_payload, turn_request,
}
use ai_arena.Match.Running.{
  result_payload, append_runtime_stop, refuse_unaccepted, initialize_player, initialize_players,
  or_initialization_failed, initialize_sessions,
}
use ai_arena.Match.Calm.{
  Calm, Leaves, LeavesIt, bind-LeavesIt, then-LeavesIt, change-LeavesIt, done-LeavesIt,
  raise-LeavesIt, ask-LeavesIt, attempt-LeavesIt, append_event-Leaves,
}

module _ {S E : Type 0} (w : World S E) (P : S → Type 0) (calm : Calm w P) where
  append_runtime_diagnostic-Leaves :
      (turn : ℤ) (player_id : String) (result : SessionResult)
      → Leaves P (append_runtime_diagnostic w turn player_id result)
  unfolding append_runtime_diagnostic
  append_runtime_diagnostic-Leaves turn player_id result r h =
      let payload = diagnostic_payload result (w.stderr player_id r.world) in
      elim (Bool-cases (result.runtime_error is "")) [
        | inl e ↦ rw e h
        | inr e ↦
            rw e (append_event-Leaves w P calm "runtime_diagnostic" turn player_id payload r h)
      ]

  append_runtime_exited-Leaves :
      (turn : ℤ) (player_id : String) (payload : Payload)
      → Leaves P (append_runtime_exited w turn player_id payload)
  unfolding append_runtime_exited
  append_runtime_exited-Leaves turn player_id payload =
      append_event-Leaves w P calm "runtime_exited" turn player_id payload

  publish_to-Leaves :
      (o : Observer S) (f : Option (ExportedSnapshot → S → S))
      → w.observer ≡ some o
      → o.on_exported_snapshot ≡ f
      → Leaves P (publish_to w f)
  unfolding publish_to
  publish_to-Leaves o none p q r h = h
  publish_to-Leaves o (some f) p q r h =
      let read : P (w.current_exported_snapshot r.world).1 = calm.exported r.world h in
      elim (Result-cases (w.current_exported_snapshot r.world).0) [
        | inl (e, x) ↦ rw (x, publish_to) read
        | inr (s, x) ↦
            rw (x, publish_to) (calm.publish o f s (w.current_exported_snapshot r.world).1 p q read)
      ]

  pub publish_exported_snapshot-Leaves : Leaves P (publish_exported_snapshot w)
  unfolding publish_exported_snapshot
  publish_exported_snapshot-Leaves r h = elim (Option-cases w.observer) [
    | inl p ↦ rw p h
    | inr (o, p) ↦ rw p (publish_to-Leaves o o.on_exported_snapshot p refl r h)
  ]

  prepare_turn-Leaves : (turn : ℤ) (req : DecisionRequest) → Leaves P (prepare_turn w turn req)
  unfolding prepare_turn
  prepare_turn-Leaves turn req r h =
      append_event-Leaves w P calm "turn_requested" turn req.player_id (request_payload req)
        (record r { last_seen = insert req.player_id req.visible_state r.last_seen }) h

  prepare_turns-Leaves :
      (turn : ℤ) (reqs : List DecisionRequest) → Leaves P (prepare_turns w turn reqs)
  unfolding prepare_turns
  prepare_turns-Leaves turn [] r h = h
  prepare_turns-Leaves turn (req ∷ more) r h =
      prepare_turns-Leaves turn more (prepare_turn w turn req r) (prepare_turn-Leaves turn req r h)

  append_late-Leaves :
      (turn : ℤ) (player_id : String) (ids : List String)
      → Leaves P (append_late w turn player_id ids)
  unfolding append_late
  append_late-Leaves turn player_id [] r h = h
  append_late-Leaves turn player_id (id ∷ more) r h =
      append_late-Leaves turn player_id more
        (append_event w "late_response_ignored" turn player_id (text_payload "response_id" id) r)
        (append_event-Leaves w P calm "late_response_ignored" turn player_id
          (text_payload "response_id" id) r h)

  append_turn_result-Leaves :
      (turn : ℤ) (x : TurnExecution E) (reason : FailureReason)
      → Leaves P (append_turn_result w turn x reason)
  unfolding append_turn_result
  append_turn_result-Leaves turn x FailureReason.no_reason r h =
      append_event-Leaves w P calm "turn_result" turn x.request.player_id
        (status_payload x.action_status) r h
  append_turn_result-Leaves turn x FailureReason.timeout r h =
      append_event-Leaves w P calm "turn_timeout" turn x.request.player_id
        (status_payload x.action_status) r h
  append_turn_result-Leaves turn x FailureReason.runtime_stop r h =
      append_runtime_exited-Leaves turn x.request.player_id (status_payload x.action_status)
        (append_runtime_diagnostic w turn x.request.player_id x.result r)
        (append_runtime_diagnostic-Leaves turn x.request.player_id x.result r h)
  append_turn_result-Leaves turn x _ r h =
      append_event-Leaves w P calm "protocol_error" turn x.request.player_id
        (status_payload x.action_status) r h

  record_turn-Leaves : (turn : ℤ) (x : TurnExecution E) → Leaves P (record_turn w turn x)
  unfolding record_turn
  record_turn-Leaves turn x r h =
      let seen = record r {
        last_result = insert x.request.player_id x.action_status r.last_result;
      } in
      let late = x.result.ignored_late_response_ids in
      append_turn_result-Leaves turn x x.result.failure_reason
        (append_late w turn x.request.player_id late seen)
        (append_late-Leaves turn x.request.player_id late seen h)

  settle_turn-LeavesIt : (turn : ℤ) (x : TurnExecution E) → LeavesIt P (settle_turn w turn x)
  unfolding settle_turn
  settle_turn-LeavesIt turn x =
      then-LeavesIt P (record { leaves = λ r h. h })
        (bind-LeavesIt P (attempt-LeavesIt P _ (calm.normalize x.request x.action_status)) λ status.
          then-LeavesIt P
            (change-LeavesIt P _ (record_turn-Leaves turn (record x { action_status = status })))
            (done-LeavesIt P _))

  settle_turns-LeavesIt :
      (turn : ℤ) (xs : List (TurnExecution E)) → LeavesIt P (settle_turns w turn xs)
  unfolding settle_turns
  settle_turns-LeavesIt turn [] = (done-LeavesIt P _)
  settle_turns-LeavesIt turn (x ∷ xs) =
      bind-LeavesIt P (settle_turn-LeavesIt turn x)
        λ status. bind-LeavesIt P (settle_turns-LeavesIt turn xs) λ statuses. (done-LeavesIt P _)

  run_simultaneous_step-LeavesIt : (step : DecisionStep) → LeavesIt P (run_simultaneous_step w step)
  unfolding run_simultaneous_step
  run_simultaneous_step-LeavesIt step =
      then-LeavesIt P (change-LeavesIt P _ (prepare_turns-Leaves step.turn step.requests)) (
        bind-LeavesIt P (ask-LeavesIt P _ (calm.turns _))
          λ results. settle_turns-LeavesIt step.turn _)

  execute_turn-LeavesIt : (turn : ℤ) (req : DecisionRequest) → LeavesIt P (execute_turn w turn req)
  unfolding execute_turn
  execute_turn-LeavesIt turn req = record {
    leaves = λ r h. calm.turn req.player_id (turn_request turn req) r.world h;
  }

  run_sequential_step-LeavesIt :
      (step : DecisionStep) (reqs : List DecisionRequest)
      → LeavesIt P (run_sequential_step w step reqs)
  unfolding run_sequential_step
  run_sequential_step-LeavesIt step [] = (raise-LeavesIt P _)
  run_sequential_step-LeavesIt step (req ∷ []) =
      then-LeavesIt P (change-LeavesIt P _ (prepare_turn-Leaves step.turn req)) (
        bind-LeavesIt P (execute_turn-LeavesIt step.turn req)
          λ x. bind-LeavesIt P (settle_turn-LeavesIt step.turn x) λ status. (done-LeavesIt P _))
  run_sequential_step-LeavesIt step (req ∷ also ∷ more) = (raise-LeavesIt P _)

  pub run_mode-LeavesIt :
      (turn : ℤ) (mode : DecisionMode) (reqs : List DecisionRequest)
      → LeavesIt P (run_step w (record { turn = turn; mode = mode; requests = reqs }))
  unfolding run_step
  run_mode-LeavesIt turn DecisionMode.simultaneous reqs =
      run_simultaneous_step-LeavesIt
        (record { turn = turn; mode = DecisionMode.simultaneous; requests = reqs })
  run_mode-LeavesIt turn DecisionMode.sequential reqs =
      run_sequential_step-LeavesIt
        (record { turn = turn; mode = DecisionMode.sequential; requests = reqs }) reqs
  run_mode-LeavesIt turn (DecisionMode.other_mode m) reqs = (raise-LeavesIt P _)

  append_runtime_stop-Leaves :
      (stage player_id : String) (result : SessionResult)
      → Leaves P (append_runtime_stop w stage player_id result)
  unfolding append_runtime_stop
  append_runtime_stop-Leaves stage player_id result r h =
      elim (Bool-cases (is_runtime_stop result.failure_reason)) [
        | inl e ↦ rw e (
            append_runtime_exited-Leaves (pos 0) player_id (text_payload "stage" stage)
              (append_runtime_diagnostic w (pos 0) player_id result r)
              (append_runtime_diagnostic-Leaves (pos 0) player_id result r h))
        | inr e ↦ rw e h
      ]

  refuse_unaccepted-LeavesIt :
      (player : Player) (result : SessionResult) → LeavesIt P (refuse_unaccepted w player result)
  unfolding refuse_unaccepted
  refuse_unaccepted-LeavesIt player result = elim (Bool-cases (is_accepted result.status)) [
    | inl e ↦ rw e (done-LeavesIt P tt)
    | inr e ↦ rw e (
        then-LeavesIt P
          (change-LeavesIt P _ (
            append_event-Leaves w P calm "session_initialization_failed" (pos 0) player.player_id
              (text_payload "reason" (reason_text result.failure_reason))))
          (raise-LeavesIt P _))
  ]

  check_context-LeavesIt : LeavesIt P (check_context w)
  check_context-LeavesIt = record { leaves = λ r h. h }

  initialize_player-LeavesIt :
      (match_id : String) (meta : GameMetadata) (deadline : ℤ) (states : Dict RawMessage)
      (player : Player)
      → LeavesIt P (initialize_player w match_id meta deadline states player)
  unfolding initialize_player
  initialize_player-LeavesIt match_id meta deadline states player =
      bind-LeavesIt P (ask-LeavesIt P _ (calm.init player.player_id _)) λ result.
        then-LeavesIt P
          (change-LeavesIt P _ (
            append_event-Leaves w P calm "session_initialized" (pos 0) player.player_id
              (result_payload result)))
          (then-LeavesIt P check_context-LeavesIt (
            then-LeavesIt P
              (change-LeavesIt P _ (append_runtime_stop-Leaves "init" player.player_id result))
              (refuse_unaccepted-LeavesIt player result)))

  initialize_players-LeavesIt :
      (match_id : String) (meta : GameMetadata) (deadline : ℤ) (states : Dict RawMessage)
      (players : List Player)
      → LeavesIt P (initialize_players w match_id meta deadline states players)
  unfolding initialize_players
  initialize_players-LeavesIt match_id meta deadline states [] = done-LeavesIt P tt
  initialize_players-LeavesIt match_id meta deadline states (player ∷ more) =
      then-LeavesIt P (initialize_player-LeavesIt match_id meta deadline states player)
        (initialize_players-LeavesIt match_id meta deadline states more)

  or_initialization_failed-Leaves :
      {A : Type 0} (answer : Result E A) (after : S)
      → P after
      → Leaves P λ r. (or_initialization_failed w (answer, after) r).1
  unfolding or_initialization_failed
  or_initialization_failed-Leaves (ok a) after k r h = k
  or_initialization_failed-Leaves (err e) after k r h =
      append_event-Leaves w P calm "game_master_initialization_failed" (pos 0) ""
        (text_payload "error" (w.error_text e)) (record r { world = after }) k

  pub initialize_sessions-LeavesIt : (meta : GameMetadata) → LeavesIt P (initialize_sessions w meta)
  unfolding initialize_sessions
  initialize_sessions-LeavesIt meta =
      let deadline = configured_deadline w init_ack_timeout_env default_init_ack_deadline in
      then-LeavesIt P (change-LeavesIt P _ λ r h. h) (
        bind-LeavesIt P
          (record {
            leaves = λ r h.
                or_initialization_failed-Leaves (w.initialize_match r.world).0
                  (w.initialize_match r.world).1 (calm.initialize r.world h) r h;
          })
          λ states.
            then-LeavesIt P
              (change-LeavesIt P _ (
                append_event-Leaves w P calm "game_master_initialized" (pos 0) ""
                  (map_payload (object (field "game" (encode_metadata meta) end)))))
              (then-LeavesIt P
                (record {
                  leaves = λ r h.
                      (initialize_players-LeavesIt r.match_id meta deadline states r.players).leaves
                        r h;
                })
                (change-LeavesIt P _ publish_exported_snapshot-Leaves)))
