-- ===== src/Match/Finishing.antt =====
-- internal/platform/match/match.go: the end of a match. The final state, the shutdown, the terminal
-- event and the record; and the whole run.
use ai_arena.Prelude.{
  String, Bool, true, false, ◌&&◌, not, List, [], ◌∷◌, none, some, ◌is◌, if◌then◌else◌, lookup,
  lookup_or, Result, ok, err,
}
use ai_arena.Prelude.Int.{milliseconds, ℤ, pos}
use ai_arena.Json.{RawMessage, no_bytes, is_no_bytes, object, end, field, text, number}
use ai_arena.Contract.{
  Player, MatchStatus, is_accepted, ActionDecision, no_reason, ActionStatus, Placement,
  PublicReplay,
}
use ai_arena.Session.{Request, SessionResult}
use ai_arena.Match.Payloads.{
  text_map, status_text, reason_text, encode_result, encode_game_over_params,
}
use ai_arena.Match.World.{
  World, Runner, RunError, Run, ◌>>=◌, ◌>>◌, change, attempt, configured_deadline,
  default_game_over_ack_deadline, game_over_timeout_env,
}
use ai_arena.Match.Events.{
  Payload, map_payload, text_payload, append_event, append_runtime_exited, err_string,
}
use ai_arena.Match.Running.{append_runtime_stop}

abbrev pub is_completed : MatchStatus → Bool
is_completed MatchStatus.completed = true
is_completed _ = false

-- The zero value of a game.ActionStatus.
abbrev pub zero_status : ActionStatus
zero_status = record {
  player_id = "";
  action_status = ActionDecision.no_decision;
  failure_reason = no_reason;
  action = no_bytes;
}

abbrev pub phase_payload : MatchStatus → Payload
phase_payload phase = text_payload "phase" (status_text phase)

abbrev pub sent_payload : String → ℤ → Payload
sent_payload match_id deadline = map_payload (
    object (
      field "match_id" (text match_id)
        (field "shutdown_after_ms" (number (milliseconds deadline)) end)))

-- A stage, and a text of a name.
unfoldable pub stage_payload : String → String → String → Payload
unfolding text_map
stage_payload stage name t = map_payload (text_map (("stage", stage) ∷ (name, t) ∷ []))

unfoldable pub result_payload : List Placement → Payload
unfolding encode_result
result_payload ps = record { type_name = "gamemaster.MatchResult"; json = some (encode_result ps) }

module _ {S E : Type 0} (w : World S E) where
  -- Of the replay of a completed match.
  unfoldable pub keep_replay : Result E PublicReplay × S → Runner S E → Runner S E
  keep_replay (err e, after) r = record r { world = after }
  keep_replay (ok replay, after) r =
      if not (replay.format is "") && not (replay.version is "") && not (is_no_bytes replay.payload)
      then record r { world = after; public_replay = some replay }
      else record r { world = after }

  unfoldable pub capture_replay : Runner S E → Runner S E
  unfolding keep_replay
  capture_replay r =
      if is_completed r.status
      then elim w.current_public_replay [
        | none ↦ r
        | some current ↦ keep_replay (current r.world) r
      ]
      else r

  unfoldable pub capture_final_state : Run S E (Unit {0})
  unfolding capture_replay
  capture_final_state = do
    snapshot ← attempt w.current_snapshot
    exported ← attempt w.current_exported_snapshot
    result ← attempt w.current_result
    change (λ r. record r {
      final_snapshot = snapshot;
      final_exported = exported;
      final_result = result;
    })
    change capture_replay

  -- A final state that cannot be captured fails a match that has no error yet.
  unfoldable pub note_capture : Result (RunError E) (Unit {0}) → Runner S E → Runner S E
  note_capture (ok _) r = r
  note_capture (err e) r = elim r.terminal_err [
    | some _ ↦ r
    | none ↦
        if is_completed r.status
        then record r {
          terminal_err = some e;
          phase = MatchStatus.failed;
          status = MatchStatus.failed;
        }
        else record r { terminal_err = some e }
  ]

  unfoldable pub visible_state_for_player : Runner S E → String → RawMessage
  visible_state_for_player r player_id =
      let seen = lookup_or no_bytes player_id r.last_seen in
      elim (lookup player_id r.final_snapshot.per_player) [
        | none ↦ seen
        | some p ↦ if is_no_bytes p.visible_state then seen else p.visible_state
      ]

  unfoldable pub game_over_request : Runner S E → ℤ → String → Request
  unfolding visible_state_for_player encode_game_over_params
  game_over_request r deadline player_id = record {
    id = "game-over";
    method = "game_over";
    params = encode_game_over_params (record {
      match_id = r.match_id;
      final_visible_state = visible_state_for_player r player_id;
      summary = r.final_result;
      shutdown_after_ms = milliseconds deadline;
    });
  }

  unfoldable pub append_game_over : ℤ → String → SessionResult → Runner S E → Runner S E
  unfolding append_event stage_payload reason_text
  append_game_over deadline player_id result r =
      if is_accepted result.status
      then append_event w "game_over_sent" (pos 0) player_id
          (map_payload (
            object (
              field "match_id" (text r.match_id)
                (field "shutdown_after_ms" (number (milliseconds deadline)) end))))
          r
      else append_event w "session_shutdown_failed" (pos 0) player_id
          (map_payload (
            text_map (
              ("stage", "game_over") ∷ ("failure_reason", reason_text result.failure_reason) ∷ [])))
          r

  unfoldable pub send_game_over : String → Runner S E → Runner S E
  unfolding game_over_request append_runtime_stop append_game_over configured_deadline
  send_game_over player_id r =
      let deadline = configured_deadline w game_over_timeout_env default_game_over_ack_deadline in
      let (result, after) =
        w.game_over player_id (game_over_request r deadline player_id) r.world in
      append_game_over deadline player_id result
        (append_runtime_stop w "game_over" player_id result (record r { world = after }))

  unfoldable pub after_close : String → Result E (Unit {0}) → Runner S E → Runner S E
  unfolding append_event append_runtime_exited status_text stage_payload
  after_close player_id (ok _) r =
      append_event w "session_shutdown_completed" (pos 0) player_id (phase_payload r.phase) r
  after_close player_id (err e) r =
      append_event w "session_shutdown_failed" (pos 0) player_id
        (stage_payload "close" "error" (w.error_text e))
        (append_runtime_exited w (pos 0) player_id
          (stage_payload "shutdown" "error" (w.error_text e)) r)

  unfoldable pub close_session : String → Runner S E → Runner S E
  unfolding append_event status_text after_close
  close_session player_id r =
      let started =
        append_event w "session_shutdown_started" (pos 0) player_id (phase_payload r.phase) r in
      let (closed, after) = w.close player_id started.world in
      after_close player_id closed (record started { world = after })

  unfoldable pub shutdown_session : String → Runner S E → Runner S E
  unfolding send_game_over close_session
  shutdown_session player_id r =
      close_session player_id (if is_completed r.status then send_game_over player_id r else r)

  unfoldable pub shutdown_each : List Player → Runner S E → Runner S E
  unfolding shutdown_session
  shutdown_each [] r = r
  shutdown_each (player ∷ more) r = shutdown_each more (shutdown_session player.player_id r)

  unfoldable pub shutdown_sessions : Runner S E → Runner S E
  unfolding shutdown_each
  shutdown_sessions r = shutdown_each r.players r

  unfoldable pub after_master : Result E (Unit {0}) → Runner S E → Runner S E
  unfolding append_event status_text
  after_master (ok _) r =
      append_event w "game_master_shutdown_completed" (pos 0) "" (phase_payload r.phase) r
  after_master (err e) r =
      append_event w "game_master_shutdown_failed" (pos 0) ""
        (text_payload "error" (w.error_text e)) r

  unfoldable pub shutdown_game_master : Runner S E → Runner S E
  unfolding append_event status_text after_master
  shutdown_game_master r =
      let started =
        append_event w "game_master_shutdown_started" (pos 0) "" (phase_payload r.phase) r in
      let (stopped, after) = w.shutdown started.world in
      after_master stopped (record started { world = after })

  -- The terminal event, by the status.
  unfoldable pub emit_as : MatchStatus → Runner S E → Runner S E
  unfolding append_event result_payload err_string
  emit_as MatchStatus.completed r =
      append_event w "match_completed" r.final_snapshot.turn ""
        (record {
          type_name = "gamemaster.MatchResult";
          json = some (encode_result r.final_result);
        })
        (record r { phase = MatchStatus.completed })
  emit_as MatchStatus.canceled r =
      append_event w "match_canceled" r.final_snapshot.turn ""
        (text_payload "error" (err_string w r.terminal_err)) r
  emit_as MatchStatus.failed r =
      append_event w "match_failed" r.final_snapshot.turn ""
        (text_payload "error" (err_string w r.terminal_err)) r
  emit_as _ r =
      append_event w "match_failed" r.final_snapshot.turn ""
        (text_payload "error" "match terminated without explicit status")
        (record r { phase = MatchStatus.failed; status = MatchStatus.failed })

  unfoldable pub emit_terminal_event : Runner S E → Runner S E
  unfolding emit_as
  emit_terminal_event r = emit_as r.status r
