-- ===== src/Match/EndTraces.antt =====
-- internal/platform/match/match.go: the initialization, the rounds of the loop and the shutdown keep
-- the log in order.
use ai_arena.Prelude.{
  ℕ, zero, suc, String, true, false, List, [], ◌∷◌, Option, none, some, refl, Result, ok, err, not,
  ◌&&◌, ◌is◌, Result-cases, Bool-cases, Option-cases, inl, inr, Dict,
}
use ai_arena.Prelude.Int.{ℤ, pos}
use ai_arena.Json.{RawMessage, is_no_bytes, object, field, end}
use ai_arena.Contract.{GameMetadata, Player, is_accepted, DecisionStep, MatchStatus, PublicReplay}
use ai_arena.Session.{SessionResult}
use ai_arena.Match.Payloads.{reason_text, encode_metadata}
use ai_arena.Match.World.{
  World, Runner, RunError, check_context, configured_deadline, default_init_ack_deadline,
  init_ack_timeout_env, default_game_over_ack_deadline, game_over_timeout_env,
}
use ai_arena.Match.Events.{
  map_payload, text_payload, is_runtime_stop, append_event, append_runtime_exited,
  append_runtime_diagnostic,
}
use ai_arena.Match.Running.{
  result_payload, append_runtime_stop, refuse_unaccepted, initialize_player, initialize_players,
  or_initialization_failed, initialize_sessions, take_asked, decision_round, decision_rounds,
}
use ai_arena.Match.Finishing.{
  keep_replay, capture_replay, capture_final_state, append_game_over, send_game_over, after_close,
  close_session, shutdown_session, shutdown_each, shutdown_sessions, after_master,
  shutdown_game_master, sent_payload, stage_payload, game_over_request, phase_payload, is_completed,
}
use ai_arena.Match.Traces.{
  Logs, trace_of, IfSome, Keeps, KeepsLog, bind-KeepsLog, then-KeepsLog, change-KeepsLog,
  done-KeepsLog, raise-KeepsLog, ask-KeepsLog, attempt-KeepsLog, append_event-Keeps,
  append_runtime_exited-Keeps, append_runtime_diagnostic-Keeps, publish_exported_snapshot-Keeps,
}
use ai_arena.Match.StepTraces.{take_step-KeepsLog}

module _ {S E : Type 0} (w : World S E) where
  append_runtime_stop-Keeps :
      (stage player_id : String) (result : SessionResult)
      → Keeps (append_runtime_stop w stage player_id result)
  unfolding append_runtime_stop
  append_runtime_stop-Keeps stage player_id result st te r h =
      elim (Bool-cases (is_runtime_stop result.failure_reason)) [
        | inl e ↦ rw e (
            append_runtime_exited-Keeps w (pos 0) player_id (text_payload "stage" stage) st te
              (append_runtime_diagnostic w (pos 0) player_id result r)
              (append_runtime_diagnostic-Keeps w (pos 0) player_id result st te r h))
        | inr e ↦ rw e h
      ]

  refuse_unaccepted-KeepsLog :
      (player : Player) (result : SessionResult) → KeepsLog (refuse_unaccepted w player result)
  unfolding refuse_unaccepted
  refuse_unaccepted-KeepsLog player result = elim (Bool-cases (is_accepted result.status)) [
    | inl e ↦ rw e (done-KeepsLog tt)
    | inr e ↦ rw e (
        then-KeepsLog
          (change-KeepsLog _ (
            append_event-Keeps w "session_initialization_failed" (pos 0) player.player_id
              (text_payload "reason" (reason_text result.failure_reason)) refl))
          (raise-KeepsLog _))
  ]

  check_context-KeepsLog : KeepsLog (check_context w)
  check_context-KeepsLog = record { keeps = λ st te r h. h }

  initialize_player-KeepsLog :
      (match_id : String) (meta : GameMetadata) (deadline : ℤ) (states : Dict RawMessage)
      (player : Player)
      → KeepsLog (initialize_player w match_id meta deadline states player)
  unfolding initialize_player
  initialize_player-KeepsLog match_id meta deadline states player =
      bind-KeepsLog (ask-KeepsLog _) λ result.
        then-KeepsLog
          (change-KeepsLog _ (
            append_event-Keeps w "session_initialized" (pos 0) player.player_id
              (result_payload result) refl))
          (then-KeepsLog check_context-KeepsLog (
            then-KeepsLog
              (change-KeepsLog _ (append_runtime_stop-Keeps "init" player.player_id result))
              (refuse_unaccepted-KeepsLog player result)))

  initialize_players-KeepsLog :
      (match_id : String) (meta : GameMetadata) (deadline : ℤ) (states : Dict RawMessage)
      (players : List Player)
      → KeepsLog (initialize_players w match_id meta deadline states players)
  unfolding initialize_players
  initialize_players-KeepsLog match_id meta deadline states [] = done-KeepsLog tt
  initialize_players-KeepsLog match_id meta deadline states (player ∷ more) =
      then-KeepsLog (initialize_player-KeepsLog match_id meta deadline states player)
        (initialize_players-KeepsLog match_id meta deadline states more)

  or_initialization_failed-Keeps :
      {A : Type 0} (answer : Result E A) (after : S)
      → Keeps λ r. (or_initialization_failed w (answer, after) r).1
  unfolding or_initialization_failed
  or_initialization_failed-Keeps (ok a) after st te r h = h
  or_initialization_failed-Keeps (err e) after st te r h =
      append_event-Keeps w "game_master_initialization_failed" (pos 0) ""
        (text_payload "error" (w.error_text e)) refl st te (record r { world = after }) h

  pub initialize_sessions-KeepsLog : (meta : GameMetadata) → KeepsLog (initialize_sessions w meta)
  unfolding initialize_sessions
  initialize_sessions-KeepsLog meta =
      let deadline = configured_deadline w init_ack_timeout_env default_init_ack_deadline in
      then-KeepsLog (change-KeepsLog _ λ st te r h. h) (
        bind-KeepsLog
          (record {
            keeps = λ st te r h.
                or_initialization_failed-Keeps (w.initialize_match r.world).0
                  (w.initialize_match r.world).1 st te r h;
          })
          λ states.
            then-KeepsLog
              (change-KeepsLog _ (
                append_event-Keeps w "game_master_initialized" (pos 0) ""
                  (map_payload (object (field "game" (encode_metadata meta) end))) refl))
              (then-KeepsLog
                (record {
                  keeps = λ st te r h.
                      (initialize_players-KeepsLog r.match_id meta deadline states r.players).keeps
                        st te r h;
                })
                (change-KeepsLog _ (publish_exported_snapshot-Keeps w))))

  take_asked-KeepsLog : (asked : Option DecisionStep) → KeepsLog (take_asked w asked)
  unfolding take_asked
  take_asked-KeepsLog none = done-KeepsLog false
  take_asked-KeepsLog (some step) = then-KeepsLog (take_step-KeepsLog w step) (done-KeepsLog true)

  decision_round-KeepsLog : KeepsLog (decision_round w)
  unfolding decision_round
  decision_round-KeepsLog =
      then-KeepsLog check_context-KeepsLog (bind-KeepsLog (attempt-KeepsLog _) take_asked-KeepsLog)

  pub decision_rounds-Logs :
      (fuel : ℕ) (status : MatchStatus) (error : Option (RunError E)) (r : Runner S E)
      → Logs status error (trace_of r)
      → IfSome (λ x. Logs status error (trace_of x.1)) (decision_rounds w fuel r)
  unfolding decision_rounds
  decision_rounds-Logs zero st te r h = tt
  decision_rounds-Logs (suc fuel) st te r h =
      let after = (decision_round w r).1 in
      let next : Logs st te (trace_of after) = decision_round-KeepsLog.keeps st te r h in
      elim (Result-cases (decision_round w r).0) [
        | inl (x, p) ↦ rw (p, IfSome, decision_rounds) next
        | inr (more, p) ↦ elim (Bool-cases more) [
          | inl e ↦ rw (p, e, IfSome, decision_rounds) (decision_rounds-Logs fuel st te after next)
          | inr e ↦ rw (p, e, IfSome, decision_rounds) next
        ]
      ]

  keep_replay-Keeps :
      (answer : Result E PublicReplay) (after : S) → Keeps (keep_replay w (answer, after))
  unfolding keep_replay
  keep_replay-Keeps (err e) after st te r h = h
  keep_replay-Keeps (ok replay) after st te r h =
      elim (Bool-cases (
        not (replay.format is "")
        && not (replay.version is "")
        && not (is_no_bytes replay.payload))) [ inl e ↦ rw e h | inr e ↦ rw e h ]

  capture_replay-Keeps : Keeps (capture_replay w)
  unfolding capture_replay
  capture_replay-Keeps st te r h = elim (Bool-cases (is_completed r.status)) [
    | inl e ↦ elim (Option-cases w.current_public_replay) [
      | inl p ↦ rw (e, p) h
      | inr (current, p) ↦
          rw (e, p) (keep_replay-Keeps (current r.world).0 (current r.world).1 st te r h)
    ]
    | inr e ↦ rw e h
  ]

  pub capture_final_state-KeepsLog : KeepsLog (capture_final_state w)
  unfolding capture_final_state
  capture_final_state-KeepsLog = bind-KeepsLog (attempt-KeepsLog _) λ snapshot.
      bind-KeepsLog (attempt-KeepsLog _) λ exported. bind-KeepsLog (attempt-KeepsLog _) λ result.
        then-KeepsLog (change-KeepsLog _ λ st te r h. h) (change-KeepsLog _ capture_replay-Keeps)

  append_game_over-Keeps :
      (deadline : ℤ) (player_id : String) (result : SessionResult)
      → Keeps (append_game_over w deadline player_id result)
  unfolding append_game_over
  append_game_over-Keeps deadline player_id result st te r h =
      let refused =
        stage_payload "game_over" "failure_reason" (reason_text result.failure_reason) in
      elim (Bool-cases (is_accepted result.status)) [
        | inl e ↦ rw e (
            append_event-Keeps w "game_over_sent" (pos 0) player_id
              (sent_payload r.match_id deadline) refl st te r h)
        | inr e ↦ rw e (
            append_event-Keeps w "session_shutdown_failed" (pos 0) player_id refused refl st te r h)
      ]

  send_game_over-Keeps : (player_id : String) → Keeps (send_game_over w player_id)
  unfolding send_game_over
  send_game_over-Keeps player_id st te r h =
      let deadline = configured_deadline w game_over_timeout_env default_game_over_ack_deadline in
      let request = game_over_request w r deadline player_id in
      let result = (w.game_over player_id request r.world).0 in
      let answered = record r { world = (w.game_over player_id request r.world).1 } in
      append_game_over-Keeps deadline player_id result st te
        (append_runtime_stop w "game_over" player_id result answered)
        (append_runtime_stop-Keeps "game_over" player_id result st te answered h)

  after_close-Keeps :
      (player_id : String) (closed : Result E (Unit {0})) → Keeps (after_close w player_id closed)
  unfolding after_close
  after_close-Keeps player_id (ok _) st te r h =
      append_event-Keeps w "session_shutdown_completed" (pos 0) player_id (phase_payload r.phase)
        refl st te r h
  after_close-Keeps player_id (err e) st te r h =
      let exited = stage_payload "shutdown" "error" (w.error_text e) in
      append_event-Keeps w "session_shutdown_failed" (pos 0) player_id
        (stage_payload "close" "error" (w.error_text e)) refl st te
        (append_runtime_exited w (pos 0) player_id exited r)
        (append_runtime_exited-Keeps w (pos 0) player_id exited st te r h)

  close_session-Keeps : (player_id : String) → Keeps (close_session w player_id)
  unfolding close_session
  close_session-Keeps player_id st te r h =
      let started =
        append_event w "session_shutdown_started" (pos 0) player_id (phase_payload r.phase) r in
      after_close-Keeps player_id (w.close player_id started.world).0 st te
        (record started { world = (w.close player_id started.world).1 })
        (append_event-Keeps w "session_shutdown_started" (pos 0) player_id (phase_payload r.phase)
          refl st te r h)

  shutdown_session-Keeps : (player_id : String) → Keeps (shutdown_session w player_id)
  unfolding shutdown_session
  shutdown_session-Keeps player_id st te r h = elim (Bool-cases (is_completed r.status)) [
    | inl e ↦ rw e (
        close_session-Keeps player_id st te (send_game_over w player_id r)
          (send_game_over-Keeps player_id st te r h))
    | inr e ↦ rw e (close_session-Keeps player_id st te r h)
  ]

  shutdown_each-Keeps : (players : List Player) → Keeps (shutdown_each w players)
  unfolding shutdown_each
  shutdown_each-Keeps [] st te r h = h
  shutdown_each-Keeps (player ∷ more) st te r h =
      shutdown_each-Keeps more st te (shutdown_session w player.player_id r)
        (shutdown_session-Keeps player.player_id st te r h)

  pub shutdown_sessions-Keeps : Keeps (shutdown_sessions w)
  unfolding shutdown_sessions
  shutdown_sessions-Keeps st te r h = shutdown_each-Keeps r.players st te r h

  after_master-Keeps : (stopped : Result E (Unit {0})) → Keeps (after_master w stopped)
  unfolding after_master
  after_master-Keeps (ok _) st te r h =
      append_event-Keeps w "game_master_shutdown_completed" (pos 0) "" (phase_payload r.phase) refl
        st te r h
  after_master-Keeps (err e) st te r h =
      append_event-Keeps w "game_master_shutdown_failed" (pos 0) ""
        (text_payload "error" (w.error_text e)) refl st te r h

  pub shutdown_game_master-Keeps : Keeps (shutdown_game_master w)
  unfolding shutdown_game_master
  shutdown_game_master-Keeps st te r h =
      let started =
        append_event w "game_master_shutdown_started" (pos 0) "" (phase_payload r.phase) r in
      after_master-Keeps (w.shutdown started.world).0 st te
        (record started { world = (w.shutdown started.world).1 })
        (append_event-Keeps w "game_master_shutdown_started" (pos 0) "" (phase_payload r.phase) refl
          st te r h)
