-- ===== src/Echo/Snapshots.antt =====
-- internal/games/echo/echo.go: the snapshots of a match, and a match rebuilt from a snapshot or from
-- the history of its events.
use ai_arena.Prelude.{
  ℕ, ◌+◌, String, Bool, true, false, not, ◌&&◌, ◌||◌, List, [], ◌∷◌, map, Option, none, some, ◌is◌,
  if◌then◌else◌, Dict, lookup, lookup_or, insert, leb, Result, ok, err, ◌>>=◌,
}
use ai_arena.Prelude.Int.{ℤ, pos, same_int, lt_int, add_one}
use ai_arena.Json.{
  Json, RawMessage, no_bytes, value, number, text, object, array, end, field, struct_fields,
  text_field, raw_field, map_fields, list_items,
}
use ai_arena.Json.Numbers.{int_field, ints_field, int_list_field}
use ai_arena.Contract.{
  Player, ActionStatus, no_reason, ActionDecision, decision_of, reason_of, is_accepted, MatchStatus,
  Snapshot, PlayerSnapshot, ExportedSnapshot,
}
use ai_arena.Match.{Event}
use ai_arena.Match.Payloads.{mode_text}
use ai_arena.Echo.Data.{Master, EchoError, malformed_payload, unknown_player, assign_players}
use ai_arena.Echo.Steps.{visible_raw, expected_now, Marks}

abbrev pub ids_of : List Player → List String
ids_of = map λ p. p.player_id

unfoldable pub init : Master → Dict RawMessage
unfolding assign_players mode_text
init m =
    assign_players
      (λ _. value (
        object (
          field "mode" (text (mode_text m.mode)) (
            field "turns" (number (pos m.turns))
              (field "player_order" (array (list_items text m.player_ids)) end)))))
      [] (ids_of m.players)

unfoldable pub visible_state : Master → String → RawMessage
unfolding visible_raw expected_now
visible_state m _ =
    visible_raw (if leb (m.resolved + 1) m.turns then m.resolved + 1 else m.turns) (expected_now m)
      m.score

-- snapshotState, a map with sorted keys.
unfoldable pub snapshot_state : Master → Json
unfolding expected_now mode_text
snapshot_state m =
    let common = field "mode" (text (mode_text m.mode)) (
      if m.seed_aware
      then field "rng_seed" (text m.rng_seed) (
          field "score" (object (map_fields number m.score))
            (field "turn" (number (pos m.resolved)) end))
      else field "score" (object (map_fields number m.score))
          (field "turn" (number (pos m.resolved)) end)) in
    object (
      field "expected" (number (pos (expected_now m))) (
        if m.seed_aware
        then field "expected_order" (array (list_items (λ n. number (pos n)) m.order)) common
        else common))

unfoldable pub snapshot : Master → Snapshot
unfolding snapshot_state
snapshot m = record {
  match_id = "";
  game_id = m.meta.game_id;
  game_version = m.meta.game_version;
  ruleset_version = m.meta.ruleset_version;
  turn = pos m.resolved;
  status = MatchStatus.running;
  game_state = value (snapshot_state m);
  per_player = [];
}

abbrev pub zero_status : ActionStatus
zero_status = record {
  player_id = "";
  action_status = ActionDecision.no_decision;
  failure_reason = no_reason;
  action = no_bytes;
}

unfoldable pub exported_snapshot : Master → ExportedSnapshot
unfolding mode_text
exported_snapshot m = record {
  match_id = "";
  game_id = m.meta.game_id;
  game_version = m.meta.game_version;
  ruleset_version = m.meta.ruleset_version;
  turn = pos m.resolved;
  status = MatchStatus.running;
  public_state = value (
      object (
        field "mode" (text (mode_text m.mode)) (
          field "resolved_turns" (number (pos m.resolved))
            (field "score" (object (map_fields number m.score)) end))));
  players =
      map
        (λ id. record {
          player_id = id;
          last_action_status = lookup_or zero_status id m.last_action;
        })
        m.player_ids;
}

-- snapshotState.
pub record SnapshotState : Type 0 where
  pub mode : String
  pub turn : ℤ
  pub expected : ℤ
  pub score : Dict ℤ
  pub rng_seed : String
  pub expected_order : List ℤ

unfoldable pub decode_state : RawMessage → Option SnapshotState
decode_state raw = elim (struct_fields raw) [
  | none ↦ none
  | some fs ↦
      let (mode, a) = text_field "mode" ("", true) fs in
      let (turn, b) = int_field "turn" (pos 0, a) fs in
      let (expected, c) = int_field "expected" (pos 0, b) fs in
      let (score, d) = ints_field "score" ([], c) fs in
      let (seed, e) = text_field "rng_seed" ("", d) fs in
      let (order, f) = int_list_field "expected_order" ([], e) fs in
      if f
      then some (record {
        mode = mode;
        turn = turn;
        expected = expected;
        score = score;
        rng_seed = seed;
        expected_order = order;
      })
      else none
]

unfoldable pub same_int_slice : List ℤ → List ℕ → Bool
unfolding same_int
same_int_slice [] [] = true
same_int_slice (i ∷ more) (n ∷ ns) = let rest = same_int_slice more ns in same_int i (pos n) && rest
same_int_slice _ _ = false

-- The scores of a snapshot, over players that are known.
unfoldable pub load_scores : Dict ℤ → Dict ℤ → Result EchoError (Dict ℤ)
load_scores [] score = ok score
load_scores ((id, n) ∷ more) score = elim (lookup id score) [
  | none ↦ err unknown_player
  | some _ ↦ load_scores more (insert id n score)
]

abbrev pub is_no_decision : ActionDecision → Bool
is_no_decision ActionDecision.no_decision = true
is_no_decision _ = false

abbrev pub under_id : String → ActionStatus → ActionStatus
under_id id s = if s.player_id is "" then record s { player_id = id } else s

unfoldable pub load_actions :
    Dict PlayerSnapshot → Dict ActionStatus → Result EchoError (Dict ActionStatus)
load_actions [] actions = ok actions
load_actions ((id, p) ∷ more) actions = elim (lookup id actions) [
  | none ↦ err unknown_player
  | some _ ↦ load_actions more (
      if is_no_decision p.last_action_status.action_status
      then actions
      else insert id (under_id id p.last_action_status) actions)
]

-- What an event of the history is, if it counts.
abbrev pub is_turn_end : String → Bool
is_turn_end kind =
    kind is "turn_result"
    || (kind is "turn_timeout" || (kind is "protocol_error" || kind is "runtime_exited"))

unfoldable pub decode_action_status : RawMessage → Option ActionStatus
decode_action_status raw = elim (struct_fields raw) [
  | none ↦ none
  | some fs ↦
      let (player_id, a) = text_field "player_id" ("", true) fs in
      let (decision, b) = text_field "action_status" ("", a) fs in
      let (reason, c) = text_field "failure_reason" ("", b) fs in
      if c
      then some (record {
        player_id = player_id;
        action_status = decision_of decision;
        failure_reason = reason_of reason;
        action = raw_field "action" no_bytes fs;
      })
      else none
]

-- The status of an event, counted for the player of the event.
unfoldable pub replay_status : Marks → String → ActionStatus → Marks
replay_status b id s = record {
  last_action = insert id (under_id id s) b.last_action;
  score =
      if is_accepted s.action_status
      then insert id (add_one (lookup_or (pos 0) id b.score)) b.score
      else b.score;
}

abbrev pub is_counted : ℤ → Event → Bool
is_counted target e = not (same_int e.turn (pos 0)) && not (lt_int target e.turn)

unfoldable pub replay_event : ℤ → Marks → Event → Result EchoError Marks
unfolding decode_action_status replay_status
replay_event target b e =
    if is_counted target e && is_turn_end e.kind
    then elim (decode_action_status e.payload) [
      | none ↦ err malformed_payload
      | some s ↦ elim (lookup e.player_id b.last_action) [
        | none ↦ err unknown_player
        | some _ ↦ ok (replay_status b e.player_id s)
      ]
    ]
    else ok b

unfoldable pub replay_events : ℤ → Marks → List Event → Result EchoError Marks
unfolding replay_event
replay_events target b [] = ok b
replay_events target b (e ∷ es) = replay_event target b e >>= λ c. replay_events target c es
