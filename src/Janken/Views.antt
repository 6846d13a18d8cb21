-- ===== src/Janken/Views.antt =====
-- internal/games/janken/janken.go: what players, the platform and the public see of a match.
use ai_arena.Prelude.{ℕ, ◌+◌, String, [], map, if◌then◌else◌, Dict, lookup_or, leb}
use ai_arena.Prelude.Int.{pos}
use ai_arena.Json.{
  Json, RawMessage, no_bytes, value, text, number, object, array, end, field, list_items,
  map_fields,
}
use ai_arena.Contract.{ActionDecision, no_reason, running, ExportedSnapshot, Snapshot}
use ai_arena.Janken.Data.{SelfRound, PublicRound, Score, Master, give_each}

encode_texts : Dict String → Json
encode_texts m = object (map_fields text m)

encode_self_round : SelfRound → Json
encode_self_round r = object (
    field "round" (number r.round)
      (field "action" (text r.action) (field "result" (text r.result) end)))

encode_public_round : PublicRound → Json
unfolding encode_texts
encode_public_round r = object (
    field "round" (number r.round)
      (field "actions" (encode_texts r.actions) (field "results" (encode_texts r.results) end)))

encode_score : Score → Json
encode_score s = object (
    field "wins" (number (pos s.wins)) (
      field "losses" (number (pos s.losses)) (
        field "draws" (number (pos s.draws)) (
          field "timeouts" (number (pos s.timeouts))
            (field "invalid_actions" (number (pos s.invalid_actions)) end)))))

visible_round : Master → ℕ
visible_round m = if leb m.rounds m.resolved then m.rounds else m.resolved + 1

unfoldable pub visible_state : Master → String → RawMessage
unfolding visible_round encode_self_round encode_public_round
visible_state m id = value (
    object (
      field "round" (number (pos (visible_round m))) (
        field "rounds" (number (pos m.rounds)) (
          field "self_history"
            (array (list_items encode_self_round (lookup_or [] id m.self_history)))
            (field "public_history" (array (list_items encode_public_round m.public_history))
              end)))))

-- The payload of Init, which is the same for each player.
unfoldable pub init : Master → Dict RawMessage
unfolding give_each
init m =
    give_each
      (λ _. value (
        object (
          field "players" (array (list_items text m.player_ids))
            (field "rounds" (number (pos m.rounds)) end))))
      [] m.players

unfoldable pub snapshot : Master → Snapshot
unfolding encode_score encode_self_round encode_public_round
snapshot m = record {
  match_id = "";
  game_id = m.meta.game_id;
  game_version = m.meta.game_version;
  ruleset_version = m.meta.ruleset_version;
  turn = pos m.resolved;
  status = running;
  game_state = value (
      object (
        field "rounds" (number (pos m.rounds)) (
          field "resolved_rounds" (number (pos m.resolved)) (
            field "scores" (object (map_fields encode_score m.scores)) (
              field "self_history"
                (object (map_fields (λ h. array (list_items encode_self_round h)) m.self_history))
                (field "public_history" (array (list_items encode_public_round m.public_history))
                  end))))));
  per_player = [];
}

unfoldable pub exported_snapshot : Master → ExportedSnapshot
unfolding encode_score encode_public_round
exported_snapshot m = record {
  match_id = "";
  game_id = m.meta.game_id;
  game_version = m.meta.game_version;
  ruleset_version = m.meta.ruleset_version;
  turn = pos m.resolved;
  status = running;
  public_state = value (
      object (
        field "rounds" (number (pos m.rounds)) (
          field "resolved_rounds" (number (pos m.resolved)) (
            field "scores" (object (map_fields encode_score m.scores)) (
              field "public_history" (array (list_items encode_public_round m.public_history))
                end)))));
  players =
      map
        (λ id. record {
          player_id = id;
          last_action_status =
              lookup_or
                (record {
                  player_id = "";
                  action_status = ActionDecision.no_decision;
                  failure_reason = no_reason;
                  action = no_bytes;
                })
                id m.last_action;
        })
        m.player_ids;
}
