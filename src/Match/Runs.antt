-- ===== src/Match/Runs.antt =====
-- internal/platform/match/match.go: the record of a match, and the whole run.
use ai_arena.Prelude.{
  ℕ, String, Bool, true, false, List, [], ◌∷◌, map, Option, none, some, if◌then◌else◌, Dict,
  lookup_or, insert, Result, ok, err, text_lt, ◌is◌,
}
use ai_arena.Prelude.Int.{pos}
use ai_arena.Json.{RawMessage, object, end, field, text, is_no_bytes}
use ai_arena.Contract.{
  GameMetadata, Player, MatchStatus, ActionDecision, ActionStatus, PlayerSnapshot, Snapshot,
  ExportedPlayerSnapshot, ExportedSnapshot,
}
use ai_arena.Standings.Sorting.{sort_slice}
use ai_arena.Match.{MatchRecord}
use ai_arena.Match.Payloads.{encode_metadata, encode_players}
use ai_arena.Match.World.{World, Observer, Runner, RunError, external}
use ai_arena.Match.Events.{Payload, map_payload, append_event}
use ai_arena.Match.Running.{initialize_sessions, run_decision_loop}
use ai_arena.Match.Finishing.{
  zero_status, capture_final_state, note_capture, visible_state_for_player, shutdown_sessions,
  shutdown_game_master, emit_terminal_event,
}

-- The snapshots of a runner before their first capture. Their status is written over by buildRecord.
abbrev pub zero_snapshot : Snapshot
zero_snapshot = record {
  match_id = "";
  game_id = "";
  game_version = "";
  ruleset_version = "";
  turn = pos 0;
  status = MatchStatus.starting;
  game_state = RawMessage.no_bytes;
  per_player = [];
}

abbrev pub zero_exported_snapshot : ExportedSnapshot
zero_exported_snapshot = record {
  match_id = "";
  game_id = "";
  game_version = "";
  ruleset_version = "";
  turn = pos 0;
  status = MatchStatus.starting;
  public_state = RawMessage.no_bytes;
  players = [];
}

unfoldable pub new_runner : {S E : Type 0} → String → List Player → S → Runner S E
new_runner match_id players world = record {
  match_id = match_id;
  players = players;
  world = world;
  events = [];
  next_seq = 0;
  last_seen = [];
  last_result = [];
  phase = MatchStatus.starting;
  status = MatchStatus.starting;
  terminal_err = none;
  final_result = [];
  final_snapshot = zero_snapshot;
  final_exported = zero_exported_snapshot;
  public_replay = none;
}

abbrev pub is_no_decision : ActionDecision → Bool
is_no_decision ActionDecision.no_decision = true
is_no_decision _ = false

-- The status of a player in a snapshot, under the player's id if it has none.
unfoldable pub resumed_status : String → ActionStatus → ActionStatus
resumed_status player_id s = if s.player_id is "" then record s { player_id = player_id } else s

abbrev pub by_player_id : ExportedPlayerSnapshot → ExportedPlayerSnapshot → Bool
by_player_id a b = text_lt a.player_id b.player_id

module _ {S E : Type 0} where
  -- WithResumeState, over the players of the snapshot.
  unfoldable pub with_resumed : Dict PlayerSnapshot → Runner S E → Runner S E
  unfolding resumed_status
  with_resumed [] r = r
  with_resumed ((player_id, p) ∷ more) r =
      let seen =
        if is_no_bytes p.visible_state
        then r
        else record r { last_seen = insert player_id p.visible_state r.last_seen } in
      with_resumed more (
        if is_no_decision p.last_action_status.action_status then seen else record seen {
          last_result =
              insert player_id (resumed_status player_id p.last_action_status) seen.last_result;
        })

  unfoldable pub with_resume_state : Snapshot → Runner S E → Runner S E
  unfolding with_resumed
  with_resume_state snapshot r = with_resumed snapshot.per_player r

  -- cancel and fail.
  unfoldable pub end_as : MatchStatus → RunError E → Runner S E → Runner S E
  end_as status e r = record r { phase = status; status = status; terminal_err = some e }

  -- The players of an exported snapshot that has none.
  unfoldable pub exported_players :
      Runner S E → List ExportedPlayerSnapshot → List ExportedPlayerSnapshot
  exported_players r [] = sort_slice by_player_id (
      map
        (λ p. record {
          player_id = p.player_id;
          last_action_status = lookup_or zero_status p.player_id r.last_result;
        })
        r.players)
  exported_players r (p ∷ more) = p ∷ more

unfoldable pub started_payload : GameMetadata → String → List Player → Payload
unfolding encode_metadata encode_players
started_payload meta match_id players = map_payload (
    object (
      field "game" (encode_metadata meta)
        (field "match_id" (text match_id) (field "players" (encode_players players) end))))

-- What Run returns, with the runner after it.
pub record Outcome (S E : Type 0) : Type 0 where
  pub match_record : MatchRecord
  pub run_err : Option (RunError E)
  pub runner : Runner S E

module _ {S E : Type 0} (w : World S E) where
  unfoldable pub is_canceled_error : RunError E → Bool
  is_canceled_error (external e) = w.is_cancellation e
  is_canceled_error _ = false

  -- The error that Run returns, and the runner with its status.
  unfoldable pub classify_terminal_error : RunError E → Runner S E → RunError E × Runner S E
  unfolding is_canceled_error end_as
  classify_terminal_error e r = elim (w.context_error r.world) [
    | some context ↦ (external context, end_as MatchStatus.canceled (external context) r)
    | none ↦
        if is_canceled_error e
        then (e, end_as MatchStatus.canceled e r)
        else (e, end_as MatchStatus.failed e r)
  ]

  unfoldable pub fill_players : Runner S E → List Player → Dict PlayerSnapshot → Dict PlayerSnapshot
  unfolding visible_state_for_player
  fill_players r [] m = m
  fill_players r (p ∷ more) m = fill_players r more (
      insert p.player_id
        (record {
          visible_state = visible_state_for_player w r p.player_id;
          last_action_status = lookup_or zero_status p.player_id r.last_result;
          stderr_bytes = (w.stderr p.player_id r.world).bytes_read;
        })
        m)

  unfoldable pub build_record : GameMetadata → Runner S E → MatchRecord
  unfolding fill_players exported_players
  build_record meta r = record {
    match_id = r.match_id;
    game = meta;
    players = r.players;
    status = r.status;
    placements = r.final_result;
    event_log = r.events;
    snapshot = record (r.final_snapshot) {
      match_id = r.match_id;
      status = r.status;
      per_player = fill_players r r.players r.final_snapshot.per_player;
    };
    exported_snapshot = record (r.final_exported) {
      match_id = r.match_id;
      status = r.status;
      players = exported_players r r.final_exported.players;
    };
    public_replay = r.public_replay;
  }

  unfoldable pub notify_record : Option (Observer S) → MatchRecord → S → S
  notify_record none built s = s
  notify_record (some o) built s = o.on_record_built built s

  unfoldable pub wind_down : Runner S E → Runner S E
  unfolding capture_final_state note_capture shutdown_sessions shutdown_game_master
      emit_terminal_event
  wind_down r =
      let (captured, after) = capture_final_state w r in
      emit_terminal_event w
        (shutdown_game_master w (shutdown_sessions w (note_capture w captured after)))

  -- The deferred function.
  unfoldable pub deferred : GameMetadata → Option (RunError E) × Runner S E → Outcome S E
  unfolding wind_down build_record notify_record
  deferred meta (run_err, r) =
      let last = wind_down r in
      let built = build_record meta last in
      record {
        match_record = built;
        run_err = run_err;
        runner = record last { world = notify_record w.observer built last.world };
      }

  unfoldable pub conclude :
      Result (RunError E) (Unit {0}) → Runner S E → Option (RunError E) × Runner S E
  unfolding classify_terminal_error
  conclude (ok _) r =
      (none, record r { phase = MatchStatus.finishing; status = MatchStatus.completed })
  conclude (err e) r = let (returned, after) = classify_terminal_error e r in (some returned, after)

  unfoldable pub start_run : GameMetadata → Runner S E → Runner S E
  unfolding append_event started_payload
  start_run meta r =
      append_event w "match_started" (pos 0) ""
        (map_payload (
          object (
            field "game" (encode_metadata meta) (
              field "match_id" (text r.match_id)
                (field "players" (encode_players r.players) end)))))
        r

  -- `none` is a decision loop that the fuel does not finish.
  unfoldable pub run_loop :
      ℕ → Result (RunError E) (Unit {0}) × Runner S E → Option (Option (RunError E) × Runner S E)
  unfolding run_decision_loop conclude
  run_loop fuel (err e, r) = some (conclude (err e) r)
  run_loop fuel (ok _, r) = elim (run_decision_loop w fuel r) [
    | none ↦ none
    | some (result, after) ↦ some (conclude result after)
  ]

  unfoldable pub run : ℕ → Runner S E → Option (Outcome S E)
  unfolding start_run initialize_sessions run_loop deferred
  run fuel r =
      let meta = w.metadata r.world in
      elim (run_loop fuel (initialize_sessions w meta (start_run meta r))) [
        | none ↦ none
        | some concluded ↦ some (deferred meta concluded)
      ]
